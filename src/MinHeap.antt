-- ===== src/MinHeap.antt =====
-- src/simulator/min-heap.js: a binary heap in an array. The result of `compare(a, b)` is used only for
-- its sign, which is that of `rank a - rank b`. The value `undefined` stands for a read past the end.
pub mod Array
pub mod Up
pub mod Down
pub mod Queue
pub mod Length
mod Examples
use gps_device_virtual_farm.Prelude.{
  ℕ, zero, suc, ◌+◌, ◌-◌, ◌*◌, ◌/◌, ◌&&◌, Option, none, some, List, [], ◌∷◌, ◌++◌, ltb, leb, ◌==◌,
  if◌then◌else◌, length, get_or, get_elem?, set,
}

module _ {ℓ} {A : Type ℓ} (rank : A → ℕ) (undefined : A) where
  -- The rank of `this.items[i]`.
  abbrev pub key : List A → ℕ → ℕ
  key items i = rank (get_or items i undefined)

  -- `[items[i], items[j]] = [items[j], items[i]]`
  pub swap : List A → ℕ → ℕ → List A
  swap items i j = set (set items i (get_or items j undefined)) j (get_or items i undefined)

  -- `#bubbleUp`, with fuel: `index` falls in each round.
  pub bubble_up : ℕ → List A → ℕ → List A
  bubble_up zero items index = items
  bubble_up (suc fuel) items index =
      let parent = (index - 1) / 2 in
      let rest = bubble_up fuel (swap items parent index) parent in
      if index == 0 then items else if leb (key items parent) (key items index) then items else rest

  -- The child of `index` that `#bubbleDown` goes on with, or `index` itself.
  pub smallest_child : List A → ℕ → ℕ
  smallest_child items index =
      let left = index * 2 + 1 in
      let right = left + 1 in
      let smallest =
        if ltb left (length items) && ltb (key items left) (key items index) then left else index in
      if ltb right (length items) && ltb (key items right) (key items smallest)
      then right
      else smallest

  -- `#bubbleDown`, with fuel: `index` grows in each round.
  pub bubble_down : ℕ → List A → ℕ → List A
  bubble_down zero items index = items
  bubble_down (suc fuel) items index =
      let smallest = smallest_child items index in
      let rest = bubble_down fuel (swap items index smallest) smallest in
      if smallest == index then items else rest

  -- `push(value)`
  unfoldable pub push : List A → A → List A
  unfolding bubble_up swap
  push items value =
      let index = length (items ++ value ∷ []) - 1 in
      bubble_up (index + 1) (items ++ value ∷ []) index

-- `items.pop()`: all but the last item.
pub but_last {ℓ} : {A : Type ℓ} → List A → List A
but_last [] = []
but_last (x ∷ []) = []
but_last (x ∷ y ∷ xs) = x ∷ but_last (y ∷ xs)

module _ {ℓ} {A : Type ℓ} (rank : A → ℕ) (undefined : A) where
  -- `pop()`: the root, if there is one, and what is left.
  unfoldable pub pop : List A → Option A × List A
  unfolding bubble_down smallest_child swap but_last
  pop items =
      let tail = get_or items (length items - 1) undefined in
      let rest = but_last items in
      if length items == 0
      then (none, items)
      else if ltb 0 (length rest)
      then (get_elem? items 0, bubble_down rank undefined (length rest + 1) (set rest 0 tail) 0)
      else (get_elem? items 0, rest)

-- `peek()`
abbrev pub peek {ℓ} : {A : Type ℓ} → List A → Option A
peek items = get_elem? items 0

-- `clear()`
abbrev pub clear {ℓ} : {A : Type ℓ} → List A → List A
clear items = []
