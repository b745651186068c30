-- ===== src/MinHeap/Down.antt =====
-- `#bubbleDown` restores the order of a heap below one item.
use mathlib.Core.Logic.{◌≢◌}
use mathlib.Core.List.{Perm}
use mathlib.Core.List.Perm
use gps_device_virtual_farm.Prelude.{
  ℕ, zero, suc, ◌+◌, ◌-◌, ◌*◌, ◌/◌, ◌≤◌, ◌<◌, ◌≡◌, ◌⊎◌, inl, inr, List, arith, ◌==◌, length,
  Bool-cases,
}
use gps_device_virtual_farm.MinHeap.{key, swap, smallest_child, bubble_down}
use gps_device_virtual_farm.MinHeap.Array.{IsHeap, length-swap, key-swap, swap-perm}

module _ {ℓ} {A : Type ℓ} (rank : A → ℕ) (undefined : A) where
  -- Only the children of `i` may rank below it, and they rank above its parent.
  pub record IsSinking (xs : List A) (i : ℕ) : Type 0 where
    pub inside : i < length xs
    pub ordered :
        (c : ℕ)
        → 0 < c
        → c < length xs
        → (c - 1) / 2 ≢ i
        → key rank undefined xs ((c - 1) / 2) ≤ key rank undefined xs c
    pub bridged :
        (c : ℕ)
        → 0 < c
        → c < length xs
        → (c - 1) / 2 ≡ i
        → 0 < i
        → key rank undefined xs ((i - 1) / 2) ≤ key rank undefined xs c

  -- What the two comparisons of a round find.
  record IsChoice (xs : List A) (i m : ℕ) : Type 0 where
    least :
        (c : ℕ)
        → 0 < c
        → c < length xs
        → (c - 1) / 2 ≡ i
        → key rank undefined xs m ≤ key rank undefined xs c
    chosen :
        (m ≡ i)
        ⊎ ((i < m)
            × (m < length xs)
            × ((m - 1) / 2 ≡ i)
            × (key rank undefined xs m < key rank undefined xs i))

  smallest_child-IsChoice :
      (xs : List A) (i : ℕ) → IsChoice xs i (smallest_child rank undefined xs i)
  unfolding smallest_child
  smallest_child-IsChoice xs i = record {
    least = λ c p q r. ground (arith, children c i p r);
    chosen = ground arith;
  }
    where
      children : (c i : ℕ) → 0 < c → (c - 1) / 2 ≡ i → (c ≡ i * 2 + 1) ⊎ (c ≡ i * 2 + 1 + 1)
      children c i p r = omega arith

  swap-IsSinking :
      (xs : List A) (i m : ℕ)
      → IsSinking xs i
      → IsChoice xs i m
      → i < m
      → m < length xs
      → (m - 1) / 2 ≡ i
      → key rank undefined xs m < key rank undefined xs i
      → IsSinking (swap rank undefined xs i m) m
  swap-IsSinking xs i m v w above hm child below =
      let size = length-swap rank undefined xs i m v.inside hm in
      let at = key-swap rank undefined xs i m v.inside hm in
      record {
        inside = omega (arith, size);
        ordered = λ c q r t.
            ground (arith, size, at c, at ((c - 1) / 2), v.ordered c, v.bridged m, w.least c);
        bridged = λ c q r t u. ground (arith, size, at c, at ((m - 1) / 2), v.ordered c);
      }

  pub bubble_down-IsHeap :
      (fuel : ℕ) (xs : List A) (i : ℕ)
      → length xs - i < fuel
      → IsSinking xs i
      → IsHeap rank undefined (bubble_down rank undefined fuel xs i)
        × Perm (bubble_down rank undefined fuel xs i) xs
  unfolding bubble_down
  bubble_down-IsHeap zero xs i h v = absurd (omega arith)
  bubble_down-IsHeap (suc fuel) xs i h v =
      let m = smallest_child rank undefined xs i in
      let w = smallest_child-IsChoice xs i in
      elim (Bool-cases (m == i)) [
        | inl settled ↦ rw settled (λ c q r. ground (arith, v.ordered c, w.least c), Perm.rfl)
        | inr sinking ↦
            let moved : (i < m)
                × (m < length xs)
                × ((m - 1) / 2 ≡ i)
                × (key rank undefined xs m < key rank undefined xs i) =
              ground arith in
            let size = length-swap rank undefined xs i m v.inside moved.1 in
            let down = swap-IsSinking xs i m v w moved.0 moved.1 moved.2 moved.3 in
            let (heap, perm) =
              bubble_down-IsHeap fuel (swap rank undefined xs i m) m (omega (arith, size)) down in
            rw sinking (heap, Perm.trans perm (swap-perm rank undefined xs i m v.inside moved.1))
      ]
