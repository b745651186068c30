-- ===== src/Gt06/Decoder/Chunks.antt =====
-- However a stream is cut into chunks, the same frames come out.
use native.Mathlib.Nat.{add-suc}
use mathlib.Core.Path.{subst, subst₂, ap₂}
use gps_device_virtual_farm.Prelude.{
  ℕ, zero, suc, ◌+◌, ◌≤◌, ◌≡◌, ◌≢◌, refl, sym, ap, ◌∙◌, Option, none, some, List, [], ◌∷◌, ◌++◌,
  arith, length, length-drop, drop, drop-append,
}
use gps_device_virtual_farm.Gt06.Decoder.{Frame, Verdict, wait, emit, find_header, trailing, judge}
use gps_device_virtual_farm.Gt06.Decoder.Scan.{
  find_header-lt, find_header-append, find_header-drop, find_header-trailing, trailing-trailing,
  skipped, drop-skipped, judge-append, shift,
}
use gps_device_virtual_farm.Gt06.Decoder.Decodes.{
  Decodes, no_header, incomplete, malformed, intact, IsLeft, same, unread, feed_loop-Returns,
  judge-emit_le,
}

same_start : {o : Option ℕ} {s t : ℕ} → o ≡ some s → o ≡ some t → s ≡ t
same_start p q = cc

-- A buffer decodes in one way only.
pub Decodes-unique :
    {b r r' : List ℕ} {fs fs' : List Frame}
    → Decodes b fs r
    → Decodes b fs' r'
    → (fs ≡ fs') × (r ≡ r')
Decodes-unique (no_header e l) (no_header e' l') = (refl, l ∙ sym l')
Decodes-unique (no_header e l) (incomplete s' e' j' l') = absurd (cc)
Decodes-unique (no_header e l) (malformed s' e' j' t') = absurd (cc)
Decodes-unique (no_header e l) (intact s' f' n' e' j' t') = absurd (cc)
Decodes-unique (incomplete s e j l) (no_header e' l') = absurd (cc)
Decodes-unique (incomplete s e j l) (incomplete s' e' j' l') = (refl, cc)
Decodes-unique (incomplete s e j l) (malformed s' e' j' t') = absurd (cc)
Decodes-unique (incomplete s e j l) (intact s' f' n' e' j' t') = absurd (cc)
Decodes-unique (malformed s e j t) (no_header e' l') = absurd (cc)
Decodes-unique (malformed s e j t) (incomplete s' e' j' l') = absurd (cc)
Decodes-unique {b} {r' = r'} {fs' = fs'} (malformed s e j t) (malformed s' e' j' t') =
    Decodes-unique t (subst (λ k. Decodes (drop 1 (drop k b)) fs' r') (same_start e' e) t')
Decodes-unique (malformed s e j t) (intact s' f' n' e' j' t') = absurd (cc)
Decodes-unique (intact s f n e j t) (no_header e' l') = absurd (cc)
Decodes-unique (intact s f n e j t) (incomplete s' e' j' l') = absurd (cc)
Decodes-unique (intact s f n e j t) (malformed s' e' j' t') = absurd (cc)
Decodes-unique {b} {r' = r'} (intact s f n e j t) (intact {frames = gs} s' f' n' e' j' t') =
    let p : s' ≡ s = same_start e' e in
    let q : emit f' n' ≡ emit f n = sym j' ∙ ap (λ k. judge (drop k b)) p ∙ j in
    let h : f' ≡ f = cc in
    let k : n' ≡ n = cc in
    let rest = Decodes-unique t (subst₂ (λ x y. Decodes (drop x (drop y b)) gs r') k p t') in
    (ap₂ ◌∷◌ (sym h) rest.0, rest.1)

drop-nil : (n : ℕ) → drop {A = ℕ} n [] ≡ []
drop-nil zero = refl
drop-nil (suc n) = refl

drop-drop : (s k : ℕ) (xs : List ℕ) → drop (s + k) xs ≡ drop s (drop k xs)
drop-drop s zero xs = ap (λ n. drop n xs) (omega arith)
drop-drop s (suc k) [] = drop-nil (s + suc k) ∙ sym (drop-nil s)
drop-drop s (suc k) (x ∷ xs) = ap (λ n. drop n (x ∷ xs)) (add-suc s k) ∙ drop-drop s k xs

moved : (b c : List ℕ) (s : ℕ) → drop (s + skipped b) (b ++ c) ≡ drop s (trailing b ++ c)
moved b c s = drop-drop s (skipped b) (b ++ c) ∙ ap (drop s) (drop-skipped b c)

pub along : {x y r : List ℕ} {fs : List Frame} → x ≡ y → Decodes x fs r → Decodes y fs r
along {r = r} {fs = fs} p d = subst (λ x. Decodes x fs r) p d

-- The same for a buffer whose first bytes are skipped.
Decodes-trailing :
    (b c : List ℕ) {fs : List Frame} {r : List ℕ}
    → find_header b ≡ none
    → Decodes (trailing b ++ c) fs r
    → Decodes (b ++ c) fs r
Decodes-trailing b c e (no_header e' l) =
    no_header (find_header-trailing b c e ∙ ap (shift (skipped b)) e')
      (l ∙ sym (trailing-trailing b c))
Decodes-trailing b c e (incomplete s e' j l) =
    let p = moved b c s in
    incomplete (s + skipped b) (find_header-trailing b c e ∙ ap (shift (skipped b)) e')
      (ap judge p ∙ j) (l ∙ sym p)
Decodes-trailing b c e (malformed s e' j t) =
    let p = moved b c s in
    malformed (s + skipped b) (find_header-trailing b c e ∙ ap (shift (skipped b)) e')
      (ap judge p ∙ j) (along (ap (drop 1) (sym p)) t)
Decodes-trailing b c e (intact s f n e' j t) =
    let p = moved b c s in
    intact (s + skipped b) f n (find_header-trailing b c e ∙ ap (shift (skipped b)) e')
      (ap judge p ∙ j) (along (ap (drop n) (sym p)) t)

Decodes-from :
    (x : List ℕ) (s : ℕ) {fs : List Frame} {r : List ℕ}
    → find_header x ≡ some s
    → find_header (drop s x) ≡ some 0
    → Decodes (drop s x) fs r
    → Decodes x fs r
Decodes-from x s e z (no_header e' l) = absurd (cc)
Decodes-from x s e z (incomplete s' e' j l) =
    let p : s' ≡ 0 = same_start e' z in
    let q : drop s' (drop s x) ≡ drop s x = ap (λ k. drop k (drop s x)) p in
    incomplete s e (ap judge (sym q) ∙ j) (l ∙ q)
Decodes-from x s e z (malformed s' e' j t) =
    let p : s' ≡ 0 = same_start e' z in
    let q : drop s' (drop s x) ≡ drop s x = ap (λ k. drop k (drop s x)) p in
    malformed s e (ap judge (sym q) ∙ j) (along (ap (drop 1) q) t)
Decodes-from x s e z (intact s' f n e' j t) =
    let p : s' ≡ 0 = same_start e' z in
    let q : drop s' (drop s x) ≡ drop s x = ap (λ k. drop k (drop s x)) p in
    intact s f n e (ap judge (sym q) ∙ j) (along (ap (drop n) q) t)

-- Where the header stands, the buffer and what follows it come apart.
module _ (b c : List ℕ) (s : ℕ) (e : find_header b ≡ some s) where
  drop_header : drop s (b ++ c) ≡ drop s b ++ c
  drop_header = drop-append s b c (omega (arith, find_header-lt b s e))

  judge_header : {v : Verdict} → v ≢ wait → judge (drop s b) ≡ v → judge (drop s (b ++ c)) ≡ v
  judge_header ne j = ap judge drop_header ∙ judge-append (drop s b) c (λ w. ne (sym j ∙ w)) ∙ j

  drop_frame : (n : ℕ) → n ≤ length (drop s b) → drop n (drop s (b ++ c)) ≡ drop n (drop s b) ++ c
  drop_frame n h = ap (drop n) drop_header ∙ drop-append n (drop s b) c h

-- What is decoded from a buffer is decoded from it when bytes follow, and the rest is joined with
-- these.
pub Decodes-append :
    (c : List ℕ) {b r q : List ℕ} {fs gs : List Frame}
    → Decodes b fs r
    → Decodes (r ++ c) gs q
    → Decodes (b ++ c) (fs ++ gs) q
Decodes-append c {b} (no_header e l) d = Decodes-trailing b c e (along (ap (λ x. x ++ c) l) d)
Decodes-append c {b} (incomplete s e j l) d =
    Decodes-from (b ++ c) s (find_header-append b c s e)
      (ap find_header (drop_header b c s e) ∙ find_header-drop b c s e)
      (along (ap (λ x. x ++ c) l ∙ sym (drop_header b c s e)) d)
Decodes-append c {b} (malformed s e j t) d =
    let size = length-drop s b in
    malformed s (find_header-append b c s e) (judge_header b c s e (λ w. cc) j) (
      along (sym (drop_frame b c s e 1 (omega (arith, size, find_header-lt b s e))))
        (Decodes-append c t d))
Decodes-append c {b} (intact s f n e j t) d =
    intact s f n (find_header-append b c s e) (judge_header b c s e (λ w. cc) j)
      (along (sym (drop_frame b c s e n (judge-emit_le (drop s b) f n j))) (Decodes-append c t d))

-- Every buffer decodes.
Decodes-total : (b : List ℕ) → (fs : List Frame) × (r : List ℕ) × Decodes b fs r
Decodes-total b =
    let r = feed_loop-Returns (length b + 1) b 0 [] (omega arith) in (r.frames, r.rest, r.decodes)

-- What the decoder keeps serves as well as what is left.
pub IsLeft-Decodes :
    (c : List ℕ) {rest buffer q : List ℕ} {gs : List Frame}
    → IsLeft rest buffer
    → Decodes (buffer ++ c) gs q
    → Decodes (rest ++ c) gs q
IsLeft-Decodes c (same e) d = along (ap (λ x. x ++ c) e) d
IsLeft-Decodes c {buffer = buffer} (unread short e l) d =
    let (gs', q', d') = Decodes-total (trailing buffer ++ c) in
    let (p, p') = Decodes-unique (Decodes-trailing buffer c e d') d in
    along (ap (λ x. x ++ c) (sym l)) (subst₂ (Decodes (trailing buffer ++ c)) p p' d')
