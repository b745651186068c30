-- ===== src/Imei/Digits.antt =====
-- The IMEIs of a fleet: each has 15 digits, and no two are the same.
use native.Mathlib.Nat.{pow-succ'}
use mathlib.Core.Path.{subst}
use mathlib.Core.Option
use gps_device_virtual_farm.Prelude.{
  ℕ, zero, suc, ◌+◌, ◌-◌, ◌*◌, ◌/◌, ◌%◌, ◌^◌, ◌≤◌, ◌<◌, ◌≡◌, ◌≢◌, refl, sym, ap, ◌∙◌, true, false,
  some, List, [], ◌∷◌, ◌++◌, arith, ltb, leb, length, length-append, Bool-cases, inl, inr,
}
use gps_device_virtual_farm.Gt06.Bcd.{all_digits, is_imei}
use gps_device_virtual_farm.Imei.{imei_start, max_devices, decimal, zeros, generate_imei}

-- The number that a string of digits writes, after `front`.
pub value_from : ℕ → List ℕ → ℕ
value_from front [] = front
value_from front (c ∷ cs) = value_from (front * 10 + (c - 48)) cs

value_from-append :
    (front : ℕ) (xs ys : List ℕ) → value_from front (xs ++ ys) ≡ value_from (value_from front xs) ys
unfolding value_from
value_from-append front [] ys = refl
value_from-append front (x ∷ xs) ys = value_from-append (front * 10 + (x - 48)) xs ys

all_digits-append :
    (xs ys : List ℕ) → all_digits xs ≡ true → all_digits ys ≡ true → all_digits (xs ++ ys) ≡ true
unfolding all_digits
all_digits-append [] ys h k = k
all_digits-append (x ∷ xs) ys h k = ground (arith, all_digits-append xs ys)

zeros_lem :
    (n : ℕ) → (length (zeros n) ≡ n) × (all_digits (zeros n) ≡ true) × (value_from 0 (zeros n) ≡ 0)
unfolding zeros all_digits value_from
zeros_lem zero = (refl, refl, refl)
zeros_lem (suc n) =
    let (size, digits, zero_value) = zeros_lem n in (ap suc size, digits, zero_value)

-- The string writes `n` in at most `k` digits.
abbrev Writes : List ℕ → ℕ → ℕ → Type 0
Writes cs k n = (all_digits cs ≡ true) × (value_from 0 cs ≡ n) × (length cs ≤ k)

one_digit : (d k : ℕ) → d < 10 → 1 ≤ k → Writes ((48 + d) ∷ []) k d
unfolding all_digits value_from
one_digit d k h l = (ground arith, omega arith, omega arith)

appended : (q d : ℕ) → value_from q ((48 + d) ∷ []) ≡ q * 10 + d
unfolding value_from
appended q d = omega arith

next_digit :
    (cs : List ℕ) (k q d : ℕ)
    → Writes cs k q
    → d < 10
    → Writes (cs ++ (48 + d) ∷ []) (suc k) (q * 10 + d)
next_digit cs k q d (digits, value, size) h =
    let last = one_digit d 1 h (omega arith) in
    (
      all_digits-append cs ((48 + d) ∷ []) digits last.0,
      value_from-append 0 cs ((48 + d) ∷ [])
          ∙ ap (λ v. value_from v ((48 + d) ∷ [])) value
          ∙ appended q d,
      omega (arith, length-append cs ((48 + d) ∷ [])),
    )

-- The digits of a number below a power of ten.
decimal_lem : (fuel n : ℕ) → n < 10 ^ suc fuel → Writes (decimal (suc fuel) n) (suc fuel) n
unfolding decimal
decimal_lem zero n h =
    let small : ltb n 10 ≡ true = ground arith in
    rw small (one_digit n 1 (omega arith) (omega arith))
decimal_lem (suc fuel) n h = elim (Bool-cases (ltb n 10)) [
  | inl small ↦ rw small (one_digit n (suc (suc fuel)) (ground (arith, small)) (omega arith))
  | inr large ↦
      let below : n / 10 < 10 ^ suc fuel = omega (arith, pow-succ' 10 (suc fuel)) in
      let back : n / 10 * 10 + n % 10 ≡ n = omega arith in
      rw large (
        subst (Writes (decimal (suc fuel) (n / 10) ++ (48 + n % 10) ∷ []) (suc (suc fuel))) back (
          next_digit (decimal (suc fuel) (n / 10)) (suc fuel) (n / 10) (n % 10)
            (decimal_lem fuel (n / 10) below) (omega arith)))
]

padded :
    (cs : List ℕ) (n : ℕ)
    → Writes cs 15 n
    → (is_imei (zeros (15 - length cs) ++ cs) ≡ true)
      × (value_from 0 (zeros (15 - length cs) ++ cs) ≡ n)
unfolding is_imei
padded cs n (digits, value, size) =
    let (count, plain, nothing) = zeros_lem (15 - length cs) in
    let total : length (zeros (15 - length cs) ++ cs) ≡ 15 =
      omega (arith, length-append (zeros (15 - length cs)) cs) in
    let all = all_digits-append (zeros (15 - length cs)) cs plain digits in
    (
      ground (arith, total, all),
      value_from-append 0 (zeros (15 - length cs)) cs ∙ ap (λ v. value_from v cs) nothing ∙ value,
    )

-- Every device of a fleet has an IMEI of 15 digits, which writes the first IMEI plus the device's index.
pub generate_imei_lem :
    (index : ℕ)
    → index < max_devices
    → (imei : List ℕ) × (generate_imei index ≡ some imei)
      × (is_imei imei ≡ true)
      × (value_from 0 imei ≡ imei_start + index)
unfolding generate_imei
generate_imei_lem index h =
    let digits = decimal 15 (imei_start + index) in
    let (valid, value) =
      padded digits (imei_start + index) (decimal_lem 14 (imei_start + index) (omega arith)) in
    let present : leb max_devices index ≡ false = ground arith in
    (zeros (15 - length digits) ++ digits, rw present refl, valid, value)

-- No two devices of a fleet have the same IMEI.
pub generate_imei-injective :
    (i j : ℕ) → i < max_devices → j < max_devices → i ≢ j → generate_imei i ≢ generate_imei j
generate_imei-injective i j h k apart e =
    let (a, p, _, v) = generate_imei_lem i h in
    let (b, q, _, w) = generate_imei_lem j k in
    let same : a ≡ b = Option.some_inj.0 (sym p ∙ e ∙ q) in
    apart (omega (arith, sym v ∙ ap (value_from 0) same ∙ w))
