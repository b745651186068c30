-- ===== src/MinHeap/Up.antt =====
-- `#bubbleUp` restores the order of a heap above one item.
use mathlib.Core.Logic.{◌≢◌}
use mathlib.Core.List.{Perm}
use mathlib.Core.List.Perm
use gps_device_virtual_farm.Prelude.{
  ℕ, zero, suc, ◌-◌, ◌/◌, ◌≤◌, ◌<◌, ◌≡◌, inl, inr, List, arith, leb, ◌==◌, length, Bool-cases,
}
use gps_device_virtual_farm.MinHeap.{key, swap, bubble_up}
use gps_device_virtual_farm.MinHeap.Array.{IsHeap, length-swap, key-swap, swap-perm}

module _ {ℓ} {A : Type ℓ} (rank : A → ℕ) (undefined : A) where
  -- Only the item at `i` may rank below its parent, and its children rank above that parent too.
  pub record IsRising (xs : List A) (i : ℕ) : Type 0 where
    pub inside : i < length xs
    pub ordered :
        (c : ℕ)
        → 0 < c
        → c < length xs
        → c ≢ i
        → key rank undefined xs ((c - 1) / 2) ≤ key rank undefined xs c
    pub bridged :
        (c : ℕ)
        → 0 < c
        → c < length xs
        → (c - 1) / 2 ≡ i
        → 0 < i
        → key rank undefined xs ((i - 1) / 2) ≤ key rank undefined xs c

  swap-IsRising :
      (xs : List A) (i : ℕ)
      → IsRising xs i
      → 0 < i
      → key rank undefined xs i < key rank undefined xs ((i - 1) / 2)
      → IsRising (swap rank undefined xs ((i - 1) / 2) i) ((i - 1) / 2)
  swap-IsRising xs i v pos below =
      let p = (i - 1) / 2 in
      let hp : p < length xs = omega (arith, v.inside) in
      let size = length-swap rank undefined xs p i hp v.inside in
      let at = key-swap rank undefined xs p i hp v.inside in
      record {
        inside = omega (arith, size);
        ordered = λ c q r t. ground (arith, size, at c, at ((c - 1) / 2), v.ordered c, v.bridged c);
        bridged =
            λ c q r t u. ground (arith, size, at c, at ((p - 1) / 2), v.ordered c, v.ordered p);
      }

  pub bubble_up-IsHeap :
      (fuel : ℕ) (xs : List A) (i : ℕ)
      → i < fuel
      → IsRising xs i
      → IsHeap rank undefined (bubble_up rank undefined fuel xs i)
        × Perm (bubble_up rank undefined fuel xs i) xs
  unfolding bubble_up
  bubble_up-IsHeap zero xs i h v = absurd (omega arith)
  bubble_up-IsHeap (suc fuel) xs i h v =
      let p = (i - 1) / 2 in
      elim (Bool-cases (i == 0)) [
        | inl root ↦ rw root (λ c q r. v.ordered c q r (ground arith), Perm.rfl)
        | inr inner ↦ elim (Bool-cases (leb (key rank undefined xs p) (key rank undefined xs i))) [
          | inl settled ↦ rw (inner, settled) (λ c q r. ground (arith, v.ordered c), Perm.rfl)
          | inr rising ↦
              let hp : p < length xs = omega (arith, v.inside) in
              let up = swap-IsRising xs i v (ground arith) (ground arith) in
              let (heap, perm) =
                bubble_up-IsHeap fuel (swap rank undefined xs p i) p (ground arith) up in
              rw (inner, rising)
                (heap, Perm.trans perm (swap-perm rank undefined xs p i hp v.inside))
        ]
      ]
