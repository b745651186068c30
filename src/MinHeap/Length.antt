-- ===== src/MinHeap/Length.antt =====
-- src/simulator/min-heap.js: `pop` takes one item off.
use gps_device_virtual_farm.Prelude.{
  ℕ, zero, suc, ◌+◌, ◌-◌, ◌≡◌, refl, ◌∙◌, List, [], ◌∷◌, arith, ltb, ◌==◌, holds_if, holds_cases,
  length, length-set, set, get_or, Option,
}
use gps_device_virtual_farm.MinHeap.{swap, smallest_child, bubble_down, but_last, pop}

length-but_last : {A : Type 0} (xs : List A) → length (but_last xs) ≡ length xs - 1
unfolding but_last
length-but_last [] = refl
length-but_last (x ∷ []) = refl
length-but_last (x ∷ y ∷ xs) = omega (arith, length-but_last (y ∷ xs))

module _ {A : Type 0} (rank : A → ℕ) (undefined : A) where
  length-exchanged : (xs : List A) (i j : ℕ) → length (swap rank undefined xs i j) ≡ length xs
  unfolding swap
  length-exchanged xs i j = rw (length-set, length-set)

  length-bubble_down :
      (fuel : ℕ) (xs : List A) (i : ℕ) → length (bubble_down rank undefined fuel xs i) ≡ length xs
  unfolding bubble_down
  length-bubble_down zero xs i = refl
  length-bubble_down (suc fuel) xs i =
      holds_if {A = List A} (λ ys. length ys ≡ length xs) (smallest_child rank undefined xs i == i)
        refl
        (length-bubble_down fuel (swap rank undefined xs i (smallest_child rank undefined xs i))
            (smallest_child rank undefined xs i)
          ∙ length-exchanged xs i (smallest_child rank undefined xs i))

  pub length-pop : (xs : List A) → length (pop rank undefined xs).1 ≡ length xs - 1
  unfolding pop
  length-pop xs =
      holds_cases {A = Option A × List A} (λ r. length r.1 ≡ length xs - 1) (length xs == 0)
        (λ empty. ground (arith, empty))
        (λ _.
          holds_if {A = Option A × List A} (λ r. length r.1 ≡ length xs - 1)
            (ltb 0 (length (but_last xs)))
            (length-bubble_down (length (but_last xs) + 1)
                (set (but_last xs) 0 (get_or xs (length xs - 1) undefined)) 0
              ∙ (length-set (but_last xs) 0 _ ∙ length-but_last xs))
            (length-but_last xs))
