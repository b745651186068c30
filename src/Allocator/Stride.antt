-- ===== src/Allocator/Stride.antt =====
-- src/simulator/road-allocator.js: `coprimeStride` finds a stride that shares no factor with the
-- capacity, so that stepping by it meets each slot once in a round.
use Prim.Native.Nat.{◌∣◌}
use native.Mathlib.Nat
use mathlib.Core.Path.{subst}
use gps_device_virtual_farm.Prelude.{
  ℕ, zero, suc, ◌+◌, ◌*◌, ◌/◌, ◌%◌, ◌≤◌, ◌<◌, false, ◌≡◌, ◌≢◌, refl, sym, ap, ◌∙◌, ==_iff, some,
  inl, inr, arith, leb, ◌==◌, Bool-cases,
}
use gps_device_virtual_farm.Allocator.{gcd_loop, gcd, stride_loop, coprime_stride}

-- A round of Euclid's loop.
gcd_loop-suc : (fuel a b : ℕ) → gcd_loop (suc fuel) a (suc b) ≡ gcd_loop fuel (suc b) (a % suc b)
unfolding gcd_loop
gcd_loop-suc fuel a b = ground arith

-- A multiple of a number is one of its quotient and one of its remainder.
divided : (a d c : ℕ) → d * c * (a / d) + a % d * c ≡ a * c
divided a d c =
    omega (arith, Nat.mul_right_comm d c (a / d), Nat.add-mul (d * (a / d)) (a % d) c)
    ∙ ap (λ n. n * c) (Nat.div-add-mod a d)

-- What divides a multiple of both numbers divides that multiple of what Euclid's loop returns.
dvd-gcd_loop : (fuel k a b c : ℕ) → b < fuel → k ∣ a * c → k ∣ b * c → k ∣ gcd_loop fuel a b * c
dvd-gcd_loop zero k a b c h p q = absurd (omega arith)
dvd-gcd_loop (suc fuel) k a zero c h p q = unfold gcd_loop in p
dvd-gcd_loop (suc fuel) k a (suc b) c h p q =
    let whole = Nat.dvd-mul_right_of_dvd k q (a / suc b) in
    let rest =
      (Nat.dvd-add_iff_right k whole).1 (subst (λ n. k ∣ n) (sym (divided a (suc b) c)) p) in
    rw (gcd_loop-suc fuel a b) (dvd-gcd_loop fuel k (suc b) (a % suc b) c (omega arith) q rest)

-- What the loop returns divides both numbers.
gcd_loop-dvd : (fuel a b : ℕ) → b < fuel → (gcd_loop fuel a b ∣ a) × (gcd_loop fuel a b ∣ b)
gcd_loop-dvd zero a b h = absurd (omega arith)
gcd_loop-dvd (suc fuel) a zero h = unfold gcd_loop in (Nat.dvd_refl a, Nat.dvd-zero a)
gcd_loop-dvd (suc fuel) a (suc b) h =
    let (left, right) = gcd_loop-dvd fuel (suc b) (a % suc b) (omega arith) in
    rw (gcd_loop-suc fuel a b) ((Nat.dvd-mod_iff _ left).0 right, left)

-- A capacity that has no factor in common with the stride, and divides a multiple of it, divides the
-- factor by which it was multiplied.
pub dvd_of_gcd :
    (stride capacity k : ℕ) → gcd stride capacity ≡ 1 → capacity ∣ stride * k → capacity ∣ k
unfolding gcd
dvd_of_gcd stride capacity k e h =
    subst (λ n. capacity ∣ n) (ap (λ n. n * k) e ∙ Nat.one-mul k)
      (dvd-gcd_loop (capacity + 1) capacity stride capacity k (omega arith) h
        (Nat.dvd-mul_right capacity k))

-- A number has no factor in common with its successor.
gcd_succ : (n : ℕ) → gcd (n + 1) n ≡ 1
unfolding gcd
gcd_succ n =
    let (left, right) = gcd_loop-dvd (n + 1) (n + 1) n (omega arith) in
    Nat.eq-one_of_dvd-one ((Nat.dvd-add_iff_right _ right).1 left)

not_last : (capacity stride : ℕ) → (gcd stride capacity == 1) ≡ false → stride ≢ capacity + 1
not_last capacity stride h e =
    let one : gcd stride capacity ≡ 1 = rw e (gcd_succ capacity) in ground (arith, h, one)

gcd_one : gcd 1 1 ≡ 1
unfolding gcd
gcd_one = refl

-- The search finds a stride, since the capacity's successor is one.
stride_loop_lem :
    (fuel capacity stride : ℕ)
    → stride ≤ capacity + 1
    → capacity + 1 < stride + fuel
    → (s : ℕ) × (stride_loop fuel capacity stride ≡ some s) × (gcd s capacity ≡ 1)
unfolding stride_loop
stride_loop_lem zero capacity stride h k = absurd (omega arith)
stride_loop_lem (suc fuel) capacity stride h k = elim (Bool-cases (gcd stride capacity == 1)) [
  | inl found ↦ (stride, rw found refl, (==_iff _ _).0 found)
  | inr more ↦
      let below : stride + 1 ≤ capacity + 1 =
        ground (arith, not_last capacity stride, gcd_succ capacity) in
      let (s, e, one) = stride_loop_lem fuel capacity (stride + 1) below (omega arith) in
      (s, rw more e, one)
]

gcd_small : (n : ℕ) → n ≤ 1 → gcd 1 n ≡ 1
unfolding gcd
gcd_small zero h = refl
gcd_small (suc zero) h = refl
gcd_small (suc (suc n)) h = absurd (omega arith)

-- `coprimeStride` ends, for every capacity, 0 included, and the capacity and its stride have no common factor.
pub coprime_stride-coprime :
    (capacity : ℕ)
    → (stride : ℕ) × (coprime_stride capacity ≡ some stride) × (gcd stride capacity ≡ 1)
unfolding coprime_stride
coprime_stride-coprime capacity = elim (Bool-cases (leb capacity 1)) [
  | inl small ↦ (1, rw small refl, gcd_small capacity (ground (arith, small)))
  | inr large ↦
      rw large
        (stride_loop_lem capacity capacity (capacity / 2 + 1) (omega arith) (ground (arith, large)))
]
