-- ===== src/MinHeap/Array.antt =====
-- Exchanging two items of an array, and the order of a heap.
use native.Mathlib.Nat.{ℕ_set}
use mathlib.Core.Logic.{∥∥₁_elim}
use mathlib.Core.List.{Perm, Permᴰ}
use mathlib.Core.List.Perm
use gps_device_virtual_farm.Prelude.{
  ℕ, zero, suc, ◌-◌, ◌/◌, ◌≤◌, ◌<◌, ◌≡◌, refl, ap, ◌∙◌, List, [], ◌∷◌, arith, ◌==◌, if◌then◌else◌,
  length, length-set, get_or, set,
}
use gps_device_virtual_farm.MinHeap.{key, swap}

module _ {ℓ} {A : Type ℓ} where
  same_length : {xs ys : List A} → Permᴰ xs ys → length xs ≡ length ys
  same_length Permᴰ.nil = refl
  same_length (Permᴰ.cons x p) = ap suc (same_length p)
  same_length (Permᴰ.swap x y) = refl
  same_length (Permᴰ.trans p q) = same_length p ∙ same_length q

  pub Perm-length : {xs ys : List A} → Perm xs ys → length xs ≡ length ys
  Perm-length p = ∥∥₁_elim p (ℕ_set _ _) same_length

  pub get_or-set :
      (xs : List A) (i j : ℕ) (v d : A)
      → i < length xs
      → get_or (set xs i v) j d ≡ (if i == j then v else get_or xs j d)
  get_or-set [] i j v d h = absurd (omega arith)
  get_or-set (x ∷ xs) zero zero v d h = refl
  get_or-set (x ∷ xs) zero (suc j) v d h = ground arith
  get_or-set (x ∷ xs) (suc i) zero v d h = ground arith
  get_or-set (x ∷ xs) (suc i) (suc j) v d h = ground (arith, get_or-set xs i j v d)

  -- Writing an item and adding the one that stood there is adding the new one.
  pub set-perm :
      (xs : List A) (i : ℕ) (v d : A) → i < length xs → Perm (get_or xs i d ∷ set xs i v) (v ∷ xs)
  set-perm [] i v d h = absurd (omega arith)
  set-perm (x ∷ xs) zero v d h = Perm.swap v x xs
  set-perm (x ∷ xs) (suc i) v d h =
      Perm.trans (Perm.swap x (get_or xs i d) (set xs i v))
        (Perm.trans (Perm.cons x (set-perm xs i v d (omega arith))) (Perm.swap v x xs))

module _ {ℓ} {A : Type ℓ} (rank : A → ℕ) (undefined : A) (xs : List A) (i j : ℕ)
    (hi : i < length xs) (hj : j < length xs) where
  pub length-swap : length (swap rank undefined xs i j) ≡ length xs
  unfolding swap
  length-swap = rw (length-set, length-set)

  get_or-swap :
      (c : ℕ)
      → get_or (swap rank undefined xs i j) c undefined ≡ (
          if j == c
          then get_or xs i undefined
          else if i == c
          then get_or xs j undefined
          else get_or xs c undefined)
  unfolding swap
  get_or-swap c =
      let first = set xs i (get_or xs j undefined) in
      get_or-set first j c (get_or xs i undefined) undefined
        (rw (length-set xs i (get_or xs j undefined)) hj)
      ∙ ap (λ x. if j == c then get_or xs i undefined else x)
          (get_or-set xs i c (get_or xs j undefined) undefined hi)

  pub key-swap :
      (c : ℕ)
      → key rank undefined (swap rank undefined xs i j) c ≡ (
          if j == c
          then key rank undefined xs i
          else if i == c
          then key rank undefined xs j
          else key rank undefined xs c)
  key-swap c = ground (arith, get_or-swap c)

  pub swap-perm : Perm (swap rank undefined xs i j) xs
  unfolding swap
  swap-perm =
      let first = set xs i (get_or xs j undefined) in
      let there : get_or first j undefined ≡ get_or xs j undefined =
        ground (arith, get_or-set xs i j (get_or xs j undefined) undefined hi) in
      let inside : j < length first = rw (length-set xs i (get_or xs j undefined)) hj in
      let second = rw there at (set-perm first j (get_or xs i undefined) undefined inside) in
      Perm.cons_inv (Perm.trans second (set-perm xs i (get_or xs j undefined) undefined hi))

-- No item ranks below its parent.
abbrev pub IsHeap {ℓ} : {A : Type ℓ} → (A → ℕ) → A → List A → Type 0
IsHeap rank undefined xs =
    (c : ℕ) → 0 < c → c < length xs → key rank undefined xs ((c - 1) / 2) ≤ key rank undefined xs c
