-- ===== src/Prelude/Sets.antt =====
-- A JavaScript Set of strings, as the list of the numbers that stand for them.
use gps_device_virtual_farm.Prelude.{
  ℕ, ◌+◌, ◌≡◌, refl, Bool, true, false, ◌||◌, List, [], ◌∷◌, ◌++◌, arith, ◌==◌, ==_iff,
  if◌then◌else◌,
}

-- `set.has(x)`
unfoldable pub has : List ℕ → ℕ → Bool
has [] x = false
has (s ∷ ss) x = s == x || has ss x

-- `set.add(x)`
unfoldable pub insert : List ℕ → ℕ → List ℕ
insert set x = if has set x then set else set ++ x ∷ []

unfoldable pub insert_all : List ℕ → List ℕ → List ℕ
insert_all set [] = set
insert_all set (x ∷ xs) = insert_all (insert set x) xs

-- How many of the numbers the set has.
unfoldable pub count_shared : List ℕ → List ℕ → ℕ
count_shared [] set = 0
count_shared (x ∷ xs) set = let rest = count_shared xs set in if has set x then rest + 1 else rest

has-append : (xs : List ℕ) (x y : ℕ) → has (xs ++ x ∷ []) y ≡ has xs y || x == y
unfolding has
has-append [] x y = ground arith
has-append (s ∷ ss) x y = ground (arith, has-append ss x y)

has_eq : (set : List ℕ) (x y : ℕ) → has set x ≡ true → (x == y) ≡ true → has set y ≡ true
has_eq set x y h e = rw ((==_iff x y).0 e) at h

pub has-insert : (set : List ℕ) (x y : ℕ) → has (insert set x) y ≡ has set y || x == y
unfolding insert
has-insert set x y = ground (arith, has-append set x y, has_eq set x y)

pub has-insert_all : (set xs : List ℕ) (y : ℕ) → has (insert_all set xs) y ≡ has set y || has xs y
unfolding insert_all has
has-insert_all set [] y = ground arith
has-insert_all set (x ∷ xs) y =
    ground (arith, has-insert_all (insert set x) xs y, has-insert set x y)

-- Two sets with the same members share as much.
pub count_shared-ext :
    (xs s t : List ℕ) → ((x : ℕ) → has s x ≡ has t x) → count_shared xs s ≡ count_shared xs t
unfolding count_shared
count_shared-ext [] s t h = refl
count_shared-ext (x ∷ xs) s t h = ground (arith, h x, count_shared-ext xs s t h)

-- `set.delete(x)`
unfoldable pub delete : List ℕ → ℕ → List ℕ
delete [] x = []
delete (y ∷ ys) x = let rest = delete ys x in if y == x then rest else y ∷ rest
