-- ===== src/Gt06/Decoder/Feed.antt =====
-- What `feed` does with a chunk, and with a stream that is cut in two.
use mathlib.Core.List.{append_assoc, append-nil, flatten}
use mathlib.Core.Path.{subst}
use gps_device_virtual_farm.Prelude.{
  ℕ, ◌+◌, ◌-◌, ◌≤◌, ◌<◌, ◌≡◌, refl, sym, ap, ◌==◌, ◌∙◌, ◌⊎◌, inl, inr, false, Option, none, some,
  List, [], ◌∷◌, ◌++◌, arith, ltb, if◌then◌else◌, length, length-append, length-drop, drop,
  Bool-cases,
}
use gps_device_virtual_farm.Gt06.Decoder.{
  FrameDecoder, Frame, trailing, feed_loop, feed, max_rx_buffer,
}
use gps_device_virtual_farm.Gt06.Decoder.Decodes.{
  Decodes, no_header, incomplete, malformed, intact, IsLeft, same, unread, Returns,
  feed_loop-Returns,
}
use gps_device_virtual_farm.Gt06.Decoder.Chunks.{
  Decodes-unique, along, Decodes-append, IsLeft-Decodes,
}

-- A chunk that fits leaves the buffer whole: `feed` decodes it.
pub feed-Decodes :
    (d : FrameDecoder) (chunk : List ℕ)
    → length d.buffer + length chunk ≤ max_rx_buffer
    → 0 < length chunk
    → Returns (d.buffer ++ chunk) [] (feed d chunk)
unfolding feed
feed-Decodes d chunk h p =
    let joined = d.buffer ++ chunk in
    let fits : ltb max_rx_buffer (length joined) ≡ false =
      ground (arith, length-append d.buffer chunk) in
    let some_bytes : (length chunk == 0) ≡ false = ground arith in
    rw (some_bytes, fits)
      (feed_loop-Returns (length joined + 1) joined d.malformed_frames [] (omega arith))

pub feed-empty : (d : FrameDecoder) → feed d [] ≡ some (d, [])
unfolding feed
feed-empty d = refl

length-trailing : (b : List ℕ) → length (trailing b) ≤ length b
unfolding trailing
length-trailing [] = omega arith
length-trailing (x ∷ []) = ground arith
length-trailing (x ∷ y ∷ r) = omega (arith, length-trailing (y ∷ r))

length-Decodes : {b r : List ℕ} {fs : List Frame} → Decodes b fs r → length r ≤ length b
length-Decodes {b} (no_header e l) = rw l (length-trailing b)
length-Decodes {b} (incomplete s e j l) = rw l (omega (arith, length-drop s b))
length-Decodes {b} (malformed s e j t) =
    omega (arith, length-Decodes t, length-drop 1 (drop s b), length-drop s b)
length-Decodes {b} (intact s f n e j t) =
    omega (arith, length-Decodes t, length-drop n (drop s b), length-drop s b)

length-IsLeft :
    {rest buffer : List ℕ}
    → IsLeft rest buffer
    → (length buffer < 2) ⊎ (length buffer ≡ length rest)
length-IsLeft (same e) = inr (ap length e)
length-IsLeft (unread short e l) = inl short

pub same_result :
    {d d' : FrameDecoder} {fs fs' : List Frame} {o : Option (FrameDecoder × List Frame)}
    → o ≡ some (d, fs)
    → o ≡ some (d', fs')
    → (d ≡ d') × (fs ≡ fs')
same_result p q = (cc, cc)

-- What `Returns` says of a result that is at hand.
pub Returns-inv :
    (b : List ℕ) (d : FrameDecoder) (fs : List Frame) {o : Option (FrameDecoder × List Frame)}
    → o ≡ some (d, fs)
    → Returns b [] o
    → (rest : List ℕ) × Decodes b fs rest × IsLeft rest d.buffer
Returns-inv b d fs e r =
    let (same_decoder, same_frames) = same_result r.returned e in
    (
      r.rest,
      subst (λ x. Decodes b x r.rest) same_frames r.decodes,
      subst (λ x. IsLeft r.rest x.buffer) same_decoder r.left,
    )

length-Returns :
    (b : List ℕ) (o : Option (FrameDecoder × List Frame))
    → Returns b [] o
    → length b ≤ max_rx_buffer
    → (d : FrameDecoder) × (fs : List Frame) × (o ≡ some (d, fs))
      × (length d.buffer ≤ max_rx_buffer)
length-Returns b o r h =
    (r.decoder, r.frames, r.returned, omega (arith, length-Decodes r.decodes, length-IsLeft r.left))

-- `feed` always returns, on any chunk, and a decoder whose buffer is within MAX_RX_BUFFER stays so.
pub feed-bounded :
    (d : FrameDecoder) (chunk : List ℕ)
    → length d.buffer ≤ max_rx_buffer
    → (d' : FrameDecoder) × (fs : List Frame) × (feed d chunk ≡ some (d', fs))
      × (length d'.buffer ≤ max_rx_buffer)
unfolding feed
feed-bounded d chunk h = elim (Bool-cases (length chunk == 0)) [
  | inl none_read ↦ (d, [], rw none_read refl, h)
  | inr read ↦
      let joined = d.buffer ++ chunk in
      let kept =
        if ltb max_rx_buffer (length joined)
        then drop (length joined - max_rx_buffer) joined
        else joined in
      let m =
        if ltb max_rx_buffer (length joined) then d.malformed_frames + 1 else d.malformed_frames in
      let small : length kept ≤ max_rx_buffer =
        ground (arith, length-drop (length joined - max_rx_buffer) joined) in
      rw read (
        length-Returns kept (feed_loop (length kept + 1) kept m [])
          (feed_loop-Returns (length kept + 1) kept m [] (omega arith)) small)
]

-- The bytes that a decoder keeps were given to it.
length-feed :
    (d d₁ : FrameDecoder) (chunk : List ℕ) (fs : List Frame)
    → length d.buffer + length chunk ≤ max_rx_buffer
    → feed d chunk ≡ some (d₁, fs)
    → length d₁.buffer ≤ length d.buffer + length chunk
length-feed d d₁ [] fs h p = let (k, l) = same_result (feed-empty d) p in rw (← k) (omega arith)
length-feed d d₁ (x ∷ a) fs h p =
    let (rest, first, left) = Returns-inv _ d₁ fs p (feed-Decodes d (x ∷ a) h (omega arith)) in
    omega (arith, length-Decodes first, length-IsLeft left, length-append d.buffer (x ∷ a))

-- Cutting a stream in two changes nothing: while the bytes fit MAX_RX_BUFFER, feeding `a` and then
-- `b` gives the frames that feeding `a ++ b` at once gives, in the same order.
feed-append :
    (d d₁ d₂ : FrameDecoder) (a b : List ℕ) (fs gs : List Frame)
    → length d.buffer + length a + length b ≤ max_rx_buffer
    → feed d a ≡ some (d₁, fs)
    → feed d₁ b ≡ some (d₂, gs)
    → (d₃ : FrameDecoder) × (feed d (a ++ b) ≡ some (d₃, fs ++ gs))
feed-append d d₁ d₂ [] b fs gs h p q =
    let (k, l) = same_result (feed-empty d) p in
    (d₂, ap (λ x. feed x b) k ∙ q ∙ ap (λ x. some (d₂, x ++ gs)) l)
feed-append d d₁ d₂ (x ∷ a) [] fs gs h p q =
    let (k, l) = same_result (feed-empty d₁) q in
    (
      d₁,
      ap (λ c. feed d (x ∷ c)) (append-nil a)
          ∙ p
          ∙ ap (λ c. some (d₁, c)) (sym (append-nil fs) ∙ ap (λ c. fs ++ c) l),
    )
feed-append d d₁ d₂ (x ∷ a) (y ∷ b) fs gs h p q =
    let size = length-append (x ∷ a) (y ∷ b) in
    let (rest, first, left) =
      Returns-inv _ d₁ fs p (feed-Decodes d (x ∷ a) (omega arith) (omega arith)) in
    let kept = length-feed d d₁ (x ∷ a) fs (omega arith) p in
    let (rest', second, left') =
      Returns-inv _ d₂ gs q (feed-Decodes d₁ (y ∷ b) (omega arith) (omega arith)) in
    let all = feed-Decodes d ((x ∷ a) ++ y ∷ b) (omega (arith, size)) (omega (arith, size)) in
    let glued =
      along (append_assoc d.buffer (x ∷ a) (y ∷ b))
        (Decodes-append (y ∷ b) first (IsLeft-Decodes (y ∷ b) left second)) in
    let (frames, rests) = Decodes-unique all.decodes glued in
    (all.decoder, all.returned ∙ ap (λ c. some (all.decoder, c)) frames)

-- A socket hands its chunks over one by one.
pub feed_all : FrameDecoder → List (List ℕ) → Option (FrameDecoder × List Frame)
feed_all d [] = some (d, [])
feed_all d (c ∷ cs) = elim (feed d c) [
  | none ↦ none
  | some (d₁, fs) ↦ elim (feed_all d₁ cs) [ none ↦ none | some (d₂, gs) ↦ some (d₂, fs ++ gs) ]
]

feed_all_cons :
    (d d₁ d₂ : FrameDecoder) (c : List ℕ) (cs : List (List ℕ)) (fs gs : List Frame)
    → feed d c ≡ some (d₁, fs)
    → feed_all d₁ cs ≡ some (d₂, gs)
    → feed_all d (c ∷ cs) ≡ some (d₂, fs ++ gs)
unfolding feed_all
feed_all_cons d d₁ d₂ c cs fs gs p q = ground arith

-- However a stream that fits MAX_RX_BUFFER is cut into chunks, `feed` called on each of them returns
-- in all the frames that one call on the whole stream returns.
pub feed_all-flatten :
    (d : FrameDecoder) (chunks : List (List ℕ))
    → length d.buffer + length (flatten chunks) ≤ max_rx_buffer
    → (d₁ d₂ : FrameDecoder) × (fs : List Frame) × (feed_all d chunks ≡ some (d₁, fs))
      × (feed d (flatten chunks) ≡ some (d₂, fs))
unfolding feed_all flatten
feed_all-flatten d [] h = (d, d, [], refl, feed-empty d)
feed_all-flatten d (c ∷ cs) h =
    let size = length-append c (flatten cs) in
    let (d₁, fs, p, _) = feed-bounded d c (omega (arith, size)) in
    let kept = length-feed d d₁ c fs (omega (arith, size)) p in
    let (d₂, d₃, gs, q, r) = feed_all-flatten d₁ cs (omega (arith, size)) in
    let (d₄, e) = feed-append d d₁ d₃ c (flatten cs) fs gs (omega (arith, size)) p r in
    (d₂, d₄, fs ++ gs, feed_all_cons d d₁ d₂ c cs fs gs p q, e)
