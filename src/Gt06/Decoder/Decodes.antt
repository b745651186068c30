-- ===== src/Gt06/Decoder/Decodes.antt =====
-- A relation between a buffer and what it decodes to, which `feed_loop` computes. It leaves out the
-- count of malformed frames.
use mathlib.Core.List.{append_assoc, append-nil}
use gps_device_virtual_farm.Prelude.{
  ℕ, zero, suc, ◌+◌, ◌≤◌, ◌<◌, ◌≡◌, refl, sym, ap, ◌∙◌, ◌⊎◌, inl, inr, false, Option, none, some,
  List, [], ◌∷◌, ◌++◌, arith, ltb, if◌then◌else◌, length, length-drop, drop, Bool-cases,
  Option-cases,
}
use gps_device_virtual_farm.Gt06.Decoder.{
  Frame, FrameDecoder, Verdict, wait, skip, emit, find_header, trailing, judge, feed_loop,
}
use gps_device_virtual_farm.Gt06.Decoder.Scan.{find_header-lt}

-- `Decodes b frames rest`: the frames that stand in `b`, and the bytes that are left to be joined
-- with what comes next. Of bytes with no header only the trailing one is left.
pub data Decodes : List ℕ → List Frame → List ℕ → Type 0 where
  no_header : {b rest : List ℕ} → find_header b ≡ none → rest ≡ trailing b → Decodes b [] rest
  incomplete :
      {b rest : List ℕ} (s : ℕ)
      → find_header b ≡ some s
      → judge (drop s b) ≡ wait
      → rest ≡ drop s b
      → Decodes b [] rest
  malformed :
      {b rest : List ℕ} {frames : List Frame} (s : ℕ)
      → find_header b ≡ some s
      → judge (drop s b) ≡ skip
      → Decodes (drop 1 (drop s b)) frames rest
      → Decodes b frames rest
  intact :
      {b rest : List ℕ} {frames : List Frame} (s : ℕ) (f : Frame) (n : ℕ)
      → find_header b ≡ some s
      → judge (drop s b) ≡ emit f n
      → Decodes (drop n (drop s b)) frames rest
      → Decodes b (f ∷ frames) rest

-- What the loop leaves in the buffer for the rest: the same bytes, or one byte that may yet turn out
-- to begin no header.
pub data IsLeft : List ℕ → List ℕ → Type 0 where
  same : {rest buffer : List ℕ} → buffer ≡ rest → IsLeft rest buffer
  unread :
      {rest buffer : List ℕ}
      → length buffer < 2
      → find_header buffer ≡ none
      → rest ≡ trailing buffer
      → IsLeft rest buffer

-- The loop ends, and what it returns is what the buffer decodes to.
pub record Returns (b : List ℕ) (before : List Frame) (r : Option (FrameDecoder × List Frame))
    : Type 0 where
  pub decoder : FrameDecoder
  pub frames : List Frame
  pub rest : List ℕ
  pub returned : r ≡ some (decoder, before ++ frames)
  pub decodes : Decodes b frames rest
  pub left : IsLeft rest decoder.buffer

pub judge-emit_pos : (b : List ℕ) (f : Frame) (n : ℕ) → judge b ≡ emit f n → 0 < n
unfolding judge
judge-emit_pos b f n e = ground arith

pub judge-emit_le : (b : List ℕ) (f : Frame) (n : ℕ) → judge b ≡ emit f n → n ≤ length b
unfolding judge
judge-emit_le b f n e = ground arith

pub find_header_short : (b : List ℕ) → length b < 2 → find_header b ≡ none
unfolding find_header
find_header_short [] h = refl
find_header_short (x ∷ []) h = refl
find_header_short (x ∷ y ∷ r) h = absurd (omega arith)

module _ (fuel : ℕ) (b : List ℕ) (m : ℕ) (before : List Frame) where
  pub feed_loop_short :
      length b < 2
      → feed_loop (suc fuel) b m before ≡ some (record { buffer = b; malformed_frames = m }, before)
  unfolding feed_loop
  feed_loop_short h = ground arith

  module _ (long : ltb (length b) 2 ≡ false) where
    feed_loop-none :
        find_header b ≡ none
        → feed_loop (suc fuel) b m before
          ≡ some (record { buffer = trailing b; malformed_frames = m }, before)
    unfolding feed_loop
    feed_loop-none e = rw (long, e) refl

    abbrev pub counted : ℕ → ℕ
    counted s = if ltb 0 s then m + 1 else m

    feed_loop_wait :
        (s : ℕ)
        → find_header b ≡ some s
        → judge (drop s b) ≡ wait
        → feed_loop (suc fuel) b m before
          ≡ some (record { buffer = drop s b; malformed_frames = counted s }, before)
    unfolding feed_loop
    feed_loop_wait s e j = rw (long, e, j) refl

    feed_loop_skip :
        (s : ℕ)
        → find_header b ≡ some s
        → judge (drop s b) ≡ skip
        → feed_loop (suc fuel) b m before
          ≡ feed_loop fuel (drop 1 (drop s b)) (counted s + 1) before
    unfolding feed_loop
    feed_loop_skip s e j = rw (long, e, j) refl

    pub feed_loop_emit :
        (s : ℕ) (f : Frame) (n : ℕ)
        → find_header b ≡ some s
        → judge (drop s b) ≡ emit f n
        → feed_loop (suc fuel) b m before
          ≡ feed_loop fuel (drop n (drop s b)) (counted s) (before ++ f ∷ [])
    unfolding feed_loop
    feed_loop_emit s f n e j = rw (long, e, j) refl

Verdict-cases : (v : Verdict) → (v ≡ wait) ⊎ (v ≡ skip) ⊎ ((f : Frame) × (n : ℕ) × (v ≡ emit f n))
Verdict-cases wait = inl refl
Verdict-cases skip = inr (inl refl)
Verdict-cases (emit f n) = inr (inr (f, n, refl))

length-drop-drop :
    (s n : ℕ) (b : List ℕ) → s + 2 ≤ length b → 0 < n → length (drop n (drop s b)) < length b
length-drop-drop s n b h p = omega (arith, length-drop n (drop s b), length-drop s b)

pub no_more :
    (d : FrameDecoder) (before : List Frame)
    → ◌≡◌ {A = Option (FrameDecoder × List Frame)} (some (d, before)) (some (d, before ++ []))
no_more d before = ap (λ fs. some (d, fs)) (sym (append-nil before))

-- With more fuel than bytes the loop ends.
pub feed_loop-Returns :
    (fuel : ℕ) (b : List ℕ) (m : ℕ) (before : List Frame)
    → length b < fuel
    → Returns b before (feed_loop fuel b m before)
feed_loop-Returns zero b m before h = absurd (omega arith)
feed_loop-Returns (suc fuel) b m before h = elim (Bool-cases (ltb (length b) 2)) [
  | inl short ↦
      let none_found = find_header_short b (ground arith) in
      record {
        decoder = record { buffer = b; malformed_frames = m };
        frames = [];
        rest = trailing b;
        returned = feed_loop_short fuel b m before (ground arith) ∙ no_more _ before;
        decodes = no_header none_found refl;
        left = unread (ground arith) none_found refl;
      }
  | inr long ↦ elim (Option-cases (find_header b)) [
    | inl e ↦ record {
      decoder = record { buffer = trailing b; malformed_frames = m };
      frames = [];
      rest = trailing b;
      returned = feed_loop-none fuel b m before long e ∙ no_more _ before;
      decodes = no_header e refl;
      left = same refl;
    }
    | inr (s, e) ↦ elim (Verdict-cases (judge (drop s b))) [
      | inl j ↦ record {
        decoder = record { buffer = drop s b; malformed_frames = counted fuel b m before long s };
        frames = [];
        rest = drop s b;
        returned = feed_loop_wait fuel b m before long s e j ∙ no_more _ before;
        decodes = incomplete s e j refl;
        left = same refl;
      }
      | inr (inl j) ↦
          let shorter = length-drop-drop s 1 b (find_header-lt b s e) (omega arith) in
          let r =
            feed_loop-Returns fuel (drop 1 (drop s b)) (counted fuel b m before long s + 1) before
              (omega arith) in
          record {
            decoder = r.decoder;
            frames = r.frames;
            rest = r.rest;
            returned = feed_loop_skip fuel b m before long s e j ∙ r.returned;
            decodes = malformed s e j r.decodes;
            left = r.left;
          }
      | inr (inr (f, n, j)) ↦
          let shorter = length-drop-drop s n b (find_header-lt b s e) (judge-emit_pos _ f n j) in
          let r =
            feed_loop-Returns fuel (drop n (drop s b)) (counted fuel b m before long s)
              (before ++ f ∷ []) (omega arith) in
          record {
            decoder = r.decoder;
            frames = f ∷ r.frames;
            rest = r.rest;
            returned =
                feed_loop_emit fuel b m before long s f n e j
                ∙ r.returned
                ∙ ap (λ fs. some (r.decoder, fs)) (append_assoc before (f ∷ []) r.frames);
            decodes = intact s f n e j r.decodes;
            left = r.left;
          }
    ]
  ]
]
