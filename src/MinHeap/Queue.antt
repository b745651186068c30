-- ===== src/MinHeap/Queue.antt =====
-- `push` adds one item, and `pop` takes an item of the lowest rank.
use native.Mathlib.Bridge.{le_prop}
use mathlib.Core.Logic.Or
use mathlib.Core.List.{Perm, Mem, mem-cons, not-mem-nil, append-nil, perm_middle}
use mathlib.Core.List.Perm
use gps_device_virtual_farm.Prelude.{
  ℕ, zero, suc, ◌+◌, ◌-◌, ◌/◌, ◌≤◌, ◌<◌, ◌≡◌, refl, ap, ◌∙◌, sym, some, List, [], ◌∷◌, ◌++◌, arith,
  length, length-append, get_or, get_or-append,
}
use gps_device_virtual_farm.MinHeap.{key, but_last, push, pop, bubble_down}
use gps_device_virtual_farm.MinHeap.Array.{IsHeap, Perm-length}
use gps_device_virtual_farm.MinHeap.Up.{IsRising, bubble_up-IsHeap}
use gps_device_virtual_farm.MinHeap.Down.{IsSinking, bubble_down-IsHeap}

append_one-perm {ℓ} : {A : Type ℓ} (xs : List A) (x : A) → Perm (xs ++ x ∷ []) (x ∷ xs)
append_one-perm xs x = rw (append-nil xs) at (perm_middle {a = x} xs [])

but_last-append {ℓ} :
    {A : Type ℓ} (x : A) (xs : List A) (d : A)
    → but_last (x ∷ xs) ++ get_or (x ∷ xs) (length xs) d ∷ [] ≡ x ∷ xs
unfolding but_last
but_last-append x [] d = refl
but_last-append x (y ∷ xs) d = ap (λ ys. x ∷ ys) (but_last-append y xs d)

module _ {ℓ} {A : Type ℓ} (rank : A → ℕ) (undefined : A) where
  -- On a heap, `push` makes a heap of the same items and the new one.
  pub push-IsHeap :
      (xs : List A) (value : A)
      → IsHeap rank undefined xs
      → IsHeap rank undefined (push rank undefined xs value)
        × Perm (push rank undefined xs value) (value ∷ xs)
  unfolding push
  push-IsHeap xs value heap =
      let grown = xs ++ value ∷ [] in
      let size = length-append xs (value ∷ []) in
      let start : IsRising rank undefined grown (length grown - 1) = record {
        inside = omega (arith, size);
        ordered = λ c p q r. ground (
          arith,
          size,
          heap c,
          get_or-append xs (value ∷ []) c undefined,
          get_or-append xs (value ∷ []) ((c - 1) / 2) undefined,
        );
        bridged = λ c p q r s. absurd (omega (arith, size));
      } in
      let (ordered, perm) =
        bubble_up-IsHeap rank undefined (length grown - 1 + 1) grown (length grown - 1)
          (omega arith) start in
      (ordered, Perm.trans perm (append_one-perm xs value))

  root_lowest :
      (fuel i : ℕ) (xs : List A)
      → i < fuel
      → IsHeap rank undefined xs
      → i < length xs
      → key rank undefined xs 0 ≤ key rank undefined xs i
  root_lowest zero i xs h heap p = absurd (omega arith)
  root_lowest (suc fuel) zero xs h heap p = omega arith
  root_lowest (suc fuel) (suc i) xs h heap p = omega (
    arith,
    heap (suc i) (omega arith) p,
    root_lowest fuel ((suc i - 1) / 2) xs (omega arith) heap (omega arith),
  )

  lowest_of_mem :
      (xs : List A) (b : ℕ)
      → ((i : ℕ) → i < length xs → b ≤ key rank undefined xs i)
      → (y : A) → Mem y xs
      → b ≤ rank y
  lowest_of_mem [] b h y m = absurd (not-mem-nil m)
  lowest_of_mem (x ∷ xs) b h y m =
      Or.elim le_prop (mem-cons.0 m) (λ e. rw e (h 0 (omega arith)))
        (lowest_of_mem xs b (λ i p. h (suc i) (omega arith)) y)

  -- What `pop` leaves once the root is replaced by the last item.
  module _ (x y : A) (xs : List A) where
    abbrev last : A
    last = get_or (y ∷ xs) (length xs) undefined

    abbrev cut : List A
    cut = last ∷ but_last (y ∷ xs)

    cut-perm : Perm (x ∷ cut) (x ∷ y ∷ xs)
    cut-perm = Perm.cons x (
        rw (but_last-append y xs undefined) at
          (Perm.symm (append_one-perm (but_last (y ∷ xs)) last)))

    key-cut :
        (c : ℕ)
        → 0 < c
        → c < length cut
        → key rank undefined cut c ≡ key rank undefined (x ∷ y ∷ xs) c
    key-cut zero p q = absurd (omega arith)
    key-cut (suc c) p q = ap rank (
        sym (get_or-append (but_last (y ∷ xs)) (last ∷ []) c undefined (omega arith))
        ∙ ap (λ ys. get_or ys c undefined) (but_last-append y xs undefined))

    cut-IsSinking : IsHeap rank undefined (x ∷ y ∷ xs) → IsSinking rank undefined cut 0
    cut-IsSinking heap =
        let size = Perm-length cut-perm in
        record {
          inside = omega arith;
          ordered = λ c p q r. ground (arith, size, heap c, key-cut c, key-cut ((c - 1) / 2));
          bridged = λ c p q r s. absurd (omega arith);
        }

  -- On a heap that is not empty, `pop` returns an item that no item ranks below, and leaves a heap of
  -- the others.
  pub pop-IsHeap :
      (xs : List A)
      → IsHeap rank undefined xs
      → 0 < length xs
      → (x : A) × (rest : List A) × (pop rank undefined xs ≡ (some x, rest))
        × IsHeap rank undefined rest
        × Perm (x ∷ rest) xs
        × ((y : A) → Mem y xs → rank x ≤ rank y)
  unfolding pop
  pop-IsHeap [] heap h = absurd (omega arith)
  pop-IsHeap (x ∷ []) heap h = (
    x,
    [],
    refl,
    λ c p q. absurd (omega arith),
    Perm.rfl,
    lowest_of_mem (x ∷ []) (rank x) (λ i p. root_lowest (suc i) i (x ∷ []) (omega arith) heap p),
  )
  pop-IsHeap (x ∷ y ∷ xs) heap h =
      let position : length (x ∷ y ∷ xs) - 1 ≡ suc (length xs) = omega arith in
      let (ordered, perm) =
        bubble_down-IsHeap rank undefined (length (but_last (x ∷ y ∷ xs)) + 1) (cut x y xs) 0
          (omega arith) (cut-IsSinking x y xs heap) in
      (
        x,
        bubble_down rank undefined (length (but_last (x ∷ y ∷ xs)) + 1) (cut x y xs) 0,
        rw position (ground arith),
        ordered,
        Perm.trans (Perm.cons x perm) (cut-perm x y xs),
        lowest_of_mem (x ∷ y ∷ xs) (rank x)
            (λ i p. root_lowest (suc i) i (x ∷ y ∷ xs) (omega arith) heap p),
      )
