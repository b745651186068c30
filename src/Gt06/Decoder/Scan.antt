-- ===== src/Gt06/Decoder/Scan.antt =====
-- How the search for a header and the judgement of a frame behave when bytes are appended.
use mathlib.Core.Option
use gps_device_virtual_farm.Prelude.{
  ℕ, zero, suc, ◌+◌, ◌≤◌, ◌<◌, ◌≡◌, ◌≢◌, refl, ap, inl, inr, Option, none, some, List, [], ◌∷◌,
  ◌++◌, arith, ltb, if◌then◌else◌, length, length-append, drop, Bool-cases, take-append,
  get_or-append,
}
use gps_device_virtual_farm.Gt06.Decoder.{
  wait, is_marker, find_header, trailing, judge, header_length, payload_length,
}

-- A header leaves two bytes at least.
pub find_header-lt : (b : List ℕ) (s : ℕ) → find_header b ≡ some s → s + 2 ≤ length b
unfolding find_header
find_header-lt [] s e = cc
find_header-lt (x ∷ []) s e = cc
find_header-lt (x ∷ y ∷ r) zero e = omega arith
find_header-lt (x ∷ y ∷ r) (suc s) e = ground (arith, find_header-lt (y ∷ r) s)

-- A header that is found stays where it is.
pub find_header-append :
    (b c : List ℕ) (s : ℕ) → find_header b ≡ some s → find_header (b ++ c) ≡ some s
unfolding find_header
find_header-append [] c s e = cc
find_header-append (x ∷ []) c s e = cc
find_header-append (x ∷ y ∷ r) c zero e = ground arith
find_header-append (x ∷ y ∷ r) c (suc s) e = ground (arith, find_header-append (y ∷ r) c s)

-- Where the header is found, the rest of the buffer begins with it.
pub find_header-drop :
    (b c : List ℕ) (s : ℕ) → find_header b ≡ some s → find_header (drop s b ++ c) ≡ some 0
unfolding find_header
find_header-drop [] c s e = cc
find_header-drop (x ∷ []) c s e = cc
find_header-drop (x ∷ y ∷ r) c zero e = ground arith
find_header-drop (x ∷ y ∷ r) c (suc s) e = ground (arith, find_header-drop (y ∷ r) c s)

-- How many bytes stand before the trailing one of a buffer with no header. They change nothing for
-- what comes after.
pub skipped : List ℕ → ℕ
skipped [] = 0
skipped (x ∷ []) = if is_marker x then 0 else 1
skipped (x ∷ y ∷ r) = suc (skipped (y ∷ r))

pub drop-skipped : (b c : List ℕ) → drop (skipped b) (b ++ c) ≡ trailing b ++ c
unfolding skipped trailing
drop-skipped [] c = refl
drop-skipped (x ∷ []) c = ground arith
drop-skipped (x ∷ y ∷ r) c = drop-skipped (y ∷ r) c

abbrev pub shift : ℕ → Option ℕ → Option ℕ
shift k none = none
shift k (some s) = some (s + k)

shift-zero : (o : Option ℕ) → o ≡ shift 0 o
shift-zero none = refl
shift-zero (some s) = ap some (omega arith)

shift-suc : (k : ℕ) (o : Option ℕ) → Option.map suc (shift k o) ≡ shift (suc k) o
shift-suc k none = refl
shift-suc k (some s) = ap some (omega arith)

pub find_header-trailing :
    (b c : List ℕ)
    → find_header b ≡ none
    → find_header (b ++ c) ≡ shift (skipped b) (find_header (trailing b ++ c))
unfolding find_header skipped trailing
find_header-trailing [] c e = shift-zero (find_header c)
find_header-trailing (x ∷ []) [] e = ground arith
find_header-trailing (x ∷ []) (y ∷ r) e = ground (
  arith,
  shift-zero (find_header (y ∷ r)),
  shift-zero (Option.map suc (find_header (y ∷ r))),
  shift-suc 0 (find_header (y ∷ r)),
)
find_header-trailing (x ∷ y ∷ r) c e = ground (
  arith,
  find_header-trailing (y ∷ r) c,
  shift-suc (skipped (y ∷ r)) (find_header (trailing (y ∷ r) ++ c)),
)

pub trailing-trailing : (b c : List ℕ) → trailing (b ++ c) ≡ trailing (trailing b ++ c)
unfolding trailing
trailing-trailing [] c = refl
trailing-trailing (x ∷ []) [] = ground arith
trailing-trailing (x ∷ []) (y ∷ r) = ground arith
trailing-trailing (x ∷ y ∷ r) c = trailing-trailing (y ∷ r) c

pub find_header-trailing-none : (b : List ℕ) → find_header (trailing b) ≡ none
unfolding find_header trailing
find_header-trailing-none [] = refl
find_header-trailing-none (x ∷ []) = ground arith
find_header-trailing-none (x ∷ y ∷ r) = find_header-trailing-none (y ∷ r)

module _ (b c : List ℕ) where
  pub header_length-append : 0 < length b → header_length (b ++ c) ≡ header_length b
  unfolding header_length
  header_length-append h = rw (get_or-append b c 0 0 h)

  pub payload_length-append :
      header_length b ≤ length b → payload_length (b ++ c) ≡ payload_length b
  unfolding header_length payload_length
  payload_length-append h =
      ground (arith, get_or-append b c 0 0, get_or-append b c 2 0, get_or-append b c 3 0)

  header_length-le : 3 ≤ header_length b
  unfolding header_length
  header_length-le = ground arith

  -- A verdict other than to wait does not depend on what follows.
  pub judge-append : judge b ≢ wait → judge (b ++ c) ≡ judge b
  unfolding judge
  judge-append ne = elim (Bool-cases (ltb (length b) (header_length b))) [
    | inl short ↦ absurd (ne (rw short))
    | inr enough ↦
        let fits : header_length b ≤ length b = ground arith in
        let header = header_length-append (omega (arith, header_length-le)) in
        let payload = payload_length-append fits in
        rw (header, payload)
          (ground
            (arith, length-append b c, take-append (header_length b + payload_length b + 2) b c))
  ]
