-- ===== src/MinHeap/Examples.antt =====
-- The theorems on src/simulator/min-heap.js at a heap of three numbers.
use mathlib.Core.List.{Perm, Mem}
use gps_device_virtual_farm.Prelude.{ℕ, zero, suc, ◌≤◌, ◌≡◌, some, List, [], ◌∷◌, arith}
use gps_device_virtual_farm.MinHeap.{push, pop}
use gps_device_virtual_farm.MinHeap.Array.{IsHeap}
use gps_device_virtual_farm.MinHeap.Queue.{push-IsHeap, pop-IsHeap}

abbrev rank : ℕ → ℕ
rank n = n

abbrev three : List ℕ
three = 2 ∷ 5 ∷ 3 ∷ []

three-IsHeap : IsHeap rank 0 three
three-IsHeap zero p q = absurd (omega arith)
three-IsHeap (suc zero) p q = omega arith
three-IsHeap (suc (suc zero)) p q = omega arith
three-IsHeap (suc (suc (suc c))) p q = absurd (omega arith)

push-IsHeap_example : IsHeap rank 0 (push rank 0 three 1) × Perm (push rank 0 three 1) (1 ∷ three)
push-IsHeap_example = push-IsHeap rank 0 three 1 three-IsHeap

pop-IsHeap_example :
    (x : ℕ) × (rest : List ℕ) × (pop rank 0 three ≡ (some x, rest))
    × IsHeap rank 0 rest
    × Perm (x ∷ rest) three
    × ((y : ℕ) → Mem y three → rank x ≤ rank y)
pop-IsHeap_example = pop-IsHeap rank 0 three three-IsHeap (omega arith)
