-- ===== src/Prelude/Bits.antt =====
-- The laws of `^` on numbers, from its recursion on binary digits.
use Prim.Native.Nat.{
  digits, bitwise, differ, bit_xor-bitwise, bit_and-bitwise, bit_or-bitwise, bit_and, bit_or, min,
  max, ◌-◌,
}
use native.Mathlib.Nat.{
  le_refl, pow-suc, pow-succ', div-div-eq-div-mul, mul_assoc, one-le-pow, mod-lt, mod-eq_of_lt,
  div-add-mod, mul-add-mod_self_left,
}
use Prim.Native.Nat.{ℕ, zero, suc, ◌+◌, ◌*◌, ◌/◌, ◌%◌, ◌^◌, ◌≤◌, ◌<◌, bit_xor}
use mathlib.Core.Path.{◌≡◌, refl, sym, ap, ◌∙◌}
use native.Mathlib.Omega.{arith}

digits_fuel :
    (z : ℕ → ℕ) (f : ℕ → ℕ → ℕ) (n m a b : ℕ) → a ≤ n → a ≤ m → digits z f n a b ≡ digits z f m a b
digits_fuel z f zero zero a b p q = refl
digits_fuel z f zero (suc m) zero b p q = refl
digits_fuel z f zero (suc m) (suc a) b p q = absurd (omega arith)
digits_fuel z f (suc n) zero zero b p q = refl
digits_fuel z f (suc n) zero (suc a) b p q = absurd (omega arith)
digits_fuel z f (suc n) (suc m) zero b p q = refl
digits_fuel z f (suc n) (suc m) (suc a) b p q =
    rw (digits_fuel z f n m (suc a / 2) (b / 2) (omega arith) (omega arith))

differ_lem : (x y : ℕ) → x < 2 → y < 2 → differ x y ≡ (x + y) % 2
differ_lem zero y p q = omega arith
differ_lem (suc zero) zero p q = refl
differ_lem (suc zero) (suc zero) p q = refl
differ_lem (suc zero) (suc (suc y)) p q = absurd (omega arith)
differ_lem (suc (suc x)) y p q = absurd (omega arith)

bitwise-suc :
    (z : ℕ → ℕ) (f : ℕ → ℕ → ℕ) (a b : ℕ)
    → bitwise z f (suc a) b ≡ bitwise z f (suc a / 2) (b / 2) * 2 + f (suc a % 2) (b % 2)
bitwise-suc z f a b =
    omega (arith, digits_fuel z f a (suc a / 2) (suc a / 2) (b / 2) (omega arith) (le_refl _))

-- One equation for the lowest digit.
pub bit_xor_digit : (a b : ℕ) → bit_xor a b ≡ bit_xor (a / 2) (b / 2) * 2 + (a + b) % 2
bit_xor_digit zero b = simp bit_xor-bitwise (omega arith)
bit_xor_digit (suc a) b = omega (
  arith,
  bit_xor-bitwise (suc a) b,
  bit_xor-bitwise (suc a / 2) (b / 2),
  bitwise-suc (λ y. y) differ a b,
  differ_lem (suc a % 2) (b % 2) (omega arith) (omega arith),
)

pub zero-bit_xor : (b : ℕ) → bit_xor 0 b ≡ b
zero-bit_xor b = bit_xor-bitwise 0 b

-- The laws go from the halves to the whole, hence the induction on a bound.
bit_xor_comm_below : (n a b : ℕ) → a + b ≤ n → bit_xor a b ≡ bit_xor b a
bit_xor_comm_below zero zero zero h = refl
bit_xor_comm_below zero zero (suc b) h = absurd (omega arith)
bit_xor_comm_below zero (suc a) b h = absurd (omega arith)
bit_xor_comm_below (suc n) zero zero h = refl
bit_xor_comm_below (suc n) zero (suc b) h = omega (
  arith,
  bit_xor_digit 0 (suc b),
  bit_xor_digit (suc b) 0,
  bit_xor_comm_below n 0 (suc b / 2) (omega arith),
)
bit_xor_comm_below (suc n) (suc a) b h = omega (
  arith,
  bit_xor_digit (suc a) b,
  bit_xor_digit b (suc a),
  bit_xor_comm_below n (suc a / 2) (b / 2) (omega arith),
)

pub bit_xor_comm : (a b : ℕ) → bit_xor a b ≡ bit_xor b a
bit_xor_comm a b = bit_xor_comm_below (a + b) a b (le_refl _)

pub bit_xor-zero : (a : ℕ) → bit_xor a 0 ≡ a
bit_xor-zero a = bit_xor_comm a 0 ∙ zero-bit_xor a

-- The half and the lowest digit of a result.
pub bit_xor_half : (a b : ℕ) → bit_xor a b / 2 ≡ bit_xor (a / 2) (b / 2)
bit_xor_half a b = omega (arith, bit_xor_digit a b)

pub bit_xor_parity : (a b : ℕ) → bit_xor a b % 2 ≡ (a + b) % 2
bit_xor_parity a b = omega (arith, bit_xor_digit a b)

bit_xor_assoc_below :
    (n a b c : ℕ) → a + b + c ≤ n → bit_xor (bit_xor a b) c ≡ bit_xor a (bit_xor b c)
bit_xor_assoc_below zero zero b c h = rw (zero-bit_xor b, zero-bit_xor (bit_xor b c))
bit_xor_assoc_below zero (suc a) b c h = absurd (omega arith)
bit_xor_assoc_below (suc n) zero b c h = rw (zero-bit_xor b, zero-bit_xor (bit_xor b c))
bit_xor_assoc_below (suc n) (suc a) b c h =
    let inner : bit_xor (bit_xor (suc a) b / 2) (c / 2) ≡ bit_xor (suc a / 2) (bit_xor b c / 2) =
      rw (bit_xor_half (suc a) b, bit_xor_half b c)
        (bit_xor_assoc_below n (suc a / 2) (b / 2) (c / 2) (omega arith)) in
    omega (
      arith,
      bit_xor_digit (bit_xor (suc a) b) c,
      bit_xor_digit (suc a) (bit_xor b c),
      bit_xor_parity (suc a) b,
      bit_xor_parity b c,
      inner,
    )

pub bit_xor_assoc : (a b c : ℕ) → bit_xor (bit_xor a b) c ≡ bit_xor a (bit_xor b c)
bit_xor_assoc a b c = bit_xor_assoc_below (a + b + c) a b c (le_refl _)

bit_xor_self_below : (n a : ℕ) → a ≤ n → bit_xor a a ≡ 0
bit_xor_self_below zero zero h = refl
bit_xor_self_below zero (suc a) h = absurd (omega arith)
bit_xor_self_below (suc n) zero h = refl
bit_xor_self_below (suc n) (suc a) h =
    omega (arith, bit_xor_digit (suc a) (suc a), bit_xor_self_below n (suc a / 2) (omega arith))

pub bit_xor_self : (a : ℕ) → bit_xor a a ≡ 0
bit_xor_self a = bit_xor_self_below a a (le_refl _)

pub bit_xor_cancel_right : (a c : ℕ) → bit_xor (bit_xor a c) c ≡ a
bit_xor_cancel_right a c = rw (bit_xor_assoc a c c, bit_xor_self c, bit_xor-zero a)

pub bit_xor_injective : (a b c : ℕ) → bit_xor a c ≡ bit_xor b c → a ≡ b
bit_xor_injective a b c e =
    sym (bit_xor_cancel_right a c) ∙ ap (λ x. bit_xor x c) e ∙ bit_xor_cancel_right b c

-- A result is as short as the longer operand.
pub bit_xor-lt : (k a b : ℕ) → a < 2 ^ k → b < 2 ^ k → bit_xor a b < 2 ^ k
bit_xor-lt zero zero zero p q = p
bit_xor-lt zero zero (suc b) p q = absurd (omega arith)
bit_xor-lt zero (suc a) b p q = absurd (omega arith)
bit_xor-lt (suc k) a b p q =
    let two : 2 ^ suc k ≡ 2 ^ k * 2 = pow-suc 2 k in
    omega (
      arith,
      two,
      bit_xor_digit a b,
      bit_xor-lt k (a / 2) (b / 2) (omega (arith, two)) (omega (arith, two)),
    )

-- A digit above the other operand is kept.
pub bit_xor_high : (k a b : ℕ) → a < 2 ^ k → b < 2 ^ k → bit_xor a (2 ^ k + b) ≡ 2 ^ k + bit_xor a b
bit_xor_high zero zero zero p q = refl
bit_xor_high zero zero (suc b) p q = absurd (omega arith)
bit_xor_high zero (suc a) b p q = absurd (omega arith)
bit_xor_high (suc k) a b p q =
    let two : 2 ^ suc k ≡ 2 ^ k * 2 = pow-suc 2 k in
    let half : (2 ^ suc k + b) / 2 ≡ 2 ^ k + b / 2 = omega (arith, two) in
    omega (
      arith,
      two,
      bit_xor_digit a b,
      bit_xor_digit a (2 ^ suc k + b)
          ∙ ap (λ (x : ℕ). bit_xor (a / 2) x * 2 + (a + (2 ^ suc k + b)) % 2) half,
      bit_xor_high k (a / 2) (b / 2) (omega (arith, two)) (omega (arith, two)),
    )

pub bit_xor_div_pow : (k a b : ℕ) → bit_xor a b / 2 ^ k ≡ bit_xor (a / 2 ^ k) (b / 2 ^ k)
bit_xor_div_pow zero a b =
    let one : (x : ℕ) → x / 2 ^ 0 ≡ x = λ x. omega arith in rw (one a, one b) (one (bit_xor a b))
bit_xor_div_pow (suc k) a b =
    let half : (x : ℕ) → x / 2 ^ suc k ≡ x / 2 / 2 ^ k =
      λ x. rw (pow-succ' 2 k) (sym (div-div-eq-div-mul x 2 (2 ^ k))) in
    rw (half a, half b)
      (half (bit_xor a b)
        ∙ ap (λ x. x / 2 ^ k) (bit_xor_half a b)
        ∙ bit_xor_div_pow k (a / 2) (b / 2))

-- Disjoint digits are added.
pub bit_xor_disjoint : (k r q : ℕ) → r < 2 ^ k → bit_xor r (2 ^ k * q) ≡ 2 ^ k * q + r
bit_xor_disjoint zero zero q h = rw (zero-bit_xor (2 ^ 0 * q)) (omega arith)
bit_xor_disjoint zero (suc r) q h = absurd (omega arith)
bit_xor_disjoint (suc k) r q h =
    let two : 2 ^ suc k * q ≡ 2 * (2 ^ k * q) =
      ap (λ t. t * q) (pow-succ' 2 k) ∙ mul_assoc 2 (2 ^ k) q in
    let half : 2 ^ suc k * q / 2 ≡ 2 ^ k * q = omega (arith, two) in
    omega (
      arith,
      two,
      bit_xor_digit r (2 ^ suc k * q),
      ap (bit_xor (r / 2)) half,
      bit_xor_disjoint k (r / 2) q (omega (arith, pow-suc 2 k)),
    )

pub bit_and_digit : (a b : ℕ) → bit_and a b ≡ bit_and (a / 2) (b / 2) * 2 + min (a % 2) (b % 2)
bit_and_digit zero b = simp bit_and-bitwise (omega arith)
bit_and_digit (suc a) b = omega (
  arith,
  bit_and-bitwise (suc a) b,
  bit_and-bitwise (suc a / 2) (b / 2),
  bitwise-suc (λ y. 0) min a b,
)

pub bit_or_digit : (a b : ℕ) → bit_or a b ≡ bit_or (a / 2) (b / 2) * 2 + max (a % 2) (b % 2)
bit_or_digit zero b = simp bit_or-bitwise (omega arith)
bit_or_digit (suc a) b = omega (
  arith,
  bit_or-bitwise (suc a) b,
  bit_or-bitwise (suc a / 2) (b / 2),
  bitwise-suc (λ y. y) max a b,
)

bit_and-zero_below : (n a : ℕ) → a ≤ n → bit_and a 0 ≡ 0
bit_and-zero_below n zero h = refl
bit_and-zero_below zero (suc a) h = absurd (omega arith)
bit_and-zero_below (suc n) (suc a) h =
    omega (arith, bit_and_digit (suc a) 0, bit_and-zero_below n (suc a / 2) (omega arith))

bit_or-zero_below : (n a : ℕ) → a ≤ n → bit_or a 0 ≡ a
bit_or-zero_below n zero h = refl
bit_or-zero_below zero (suc a) h = absurd (omega arith)
bit_or-zero_below (suc n) (suc a) h =
    omega (arith, bit_or_digit (suc a) 0, bit_or-zero_below n (suc a / 2) (omega arith))

mod-double : (a m : ℕ) → 0 < m → a % (2 * m) ≡ a / 2 % m * 2 + a % 2
mod-double a m h =
    let q = a / 2 / m in
    let r = a / 2 % m in
    let small : r * 2 + a % 2 < 2 * m = omega (arith, mod-lt (a / 2) h) in
    let parts : a ≡ 2 * m * q + (r * 2 + a % 2) =
      omega (arith, div-add-mod (a / 2) m, mul_assoc 2 m q) in
    ap (λ x. x % (2 * m)) parts
    ∙ mul-add-mod_self_left (2 * m) q (r * 2 + a % 2)
    ∙ mod-eq_of_lt small

-- A mask of low ones is a remainder.
pub bit_and_mask : (k a : ℕ) → bit_and a (2 ^ k - 1) ≡ a % 2 ^ k
bit_and_mask zero a = omega (arith, bit_and-zero_below a a (le_refl a))
bit_and_mask (suc k) a =
    let two : 2 ^ suc k ≡ 2 * 2 ^ k = pow-succ' 2 k in
    let pos : 0 < 2 ^ k = one-le-pow k 2 (omega arith) in
    let half : (2 ^ suc k - 1) / 2 ≡ 2 ^ k - 1 = omega (arith, two) in
    let double : a % 2 ^ suc k ≡ a / 2 % 2 ^ k * 2 + a % 2 =
      ap (λ m. a % m) two ∙ mod-double a (2 ^ k) pos in
    bit_and_digit a (2 ^ suc k - 1) ∙ rw half (omega (arith, two, bit_and_mask k (a / 2), double))

-- Disjoint digits are joined by a sum.
pub bit_or_disjoint : (k q r : ℕ) → r < 2 ^ k → bit_or (q * 2 ^ k) r ≡ q * 2 ^ k + r
bit_or_disjoint zero q zero h = omega (arith, bit_or-zero_below (q * 2 ^ 0) (q * 2 ^ 0) (le_refl _))
bit_or_disjoint zero q (suc r) h = absurd (omega arith)
bit_or_disjoint (suc k) q r h =
    let two : q * 2 ^ suc k ≡ q * 2 ^ k * 2 =
      ap (λ t. q * t) (pow-suc 2 k) ∙ sym (mul_assoc q (2 ^ k) 2) in
    let half : q * 2 ^ suc k / 2 ≡ q * 2 ^ k = omega (arith, two) in
    omega (
      arith,
      two,
      bit_or_digit (q * 2 ^ suc k) r,
      ap (λ x. bit_or x (r / 2)) half,
      bit_or_disjoint k q (r / 2) (omega (arith, pow-suc 2 k)),
    )
