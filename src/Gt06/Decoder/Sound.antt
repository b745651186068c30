-- ===== src/Gt06/Decoder/Sound.antt =====
-- No frame is made up: what `feed` of src/simulator/gt06.js returns are GT06 frames.
use mathlib.Core.Path.{subst}
use gps_device_virtual_farm.Gt06.Decoder.Scan.{header_length-append, payload_length-append}
use gps_device_virtual_farm.Prelude.{
  ℕ, zero, suc, Bool, if◌then◌else◌, ◌+◌, ◌-◌, ◌≤◌, ◌<◌, ◌≡◌, refl, get_or, get_or-append,
  length-drop, ap, ◌∙◌, true, some, List, [], ◌∷◌, ◌++◌, arith, length, length-take, take, drop,
  All, sym, take-append-drop,
}
use gps_device_virtual_farm.Gt06.Buffer.{read_uint16_be}
use gps_device_virtual_farm.Gt06.Crc.{crc16itu}
use gps_device_virtual_farm.Gt06.Decoder.{
  Frame, FrameDecoder, emit, header_length, payload_length, is_intact, frame_of, judge, feed,
  find_header, is_marker, max_frame_size, max_rx_buffer,
}
use gps_device_virtual_farm.Gt06.Decoder.Decodes.{Decodes, no_header, incomplete, malformed, intact}
use gps_device_virtual_farm.Gt06.Decoder.Feed.{feed-Decodes, Returns-inv, feed-empty, same_result}

-- The length of the header and of the length field.
abbrev head_size : Bool → ℕ
head_size long = if long then 4 else 3

-- A GT06 frame, from the bytes that stand in it: two bytes 0x78, or 0x79 for a long frame, the length of
-- the payload and four more in one byte or two, the payload, which begins with the protocol number, the
-- serial number, the checksum of all from the length on, and 0x0d 0x0a.
pub record IsGenuine (f : Frame) : Type 0 where
  pub marked :
      (get_or f.raw 0 0 ≡ (if f.long_header then 0x79 else 0x78))
      × (get_or f.raw 1 0 ≡ (if f.long_header then 0x79 else 0x78))
  pub stated :
      (if f.long_header then read_uint16_be f.raw 2 else get_or f.raw 2 0) ≡ length f.payload + 4
  pub measured : length f.raw ≡ head_size f.long_header + length f.payload + 6
  pub filled : 1 ≤ length f.payload
  pub content : f.payload ≡ take (length f.payload) (drop (head_size f.long_header) f.raw)
  pub kind : f.protocol ≡ get_or f.raw (head_size f.long_header) 0
  pub numbered : f.serial ≡ read_uint16_be f.raw (length f.raw - 6)
  pub checked : read_uint16_be f.raw (length f.raw - 4) ≡ crc16itu f.raw 2 (length f.raw - 4)
  pub ended :
      (get_or f.raw (length f.raw - 2) 0 ≡ 0x0d) × (get_or f.raw (length f.raw - 1) 0 ≡ 0x0a)
  pub bounded : length f.raw ≤ 4096

-- A buffer that begins with a header.
abbrev Begins : List ℕ → Type 0
Begins b = (is_marker (get_or b 0 0) ≡ true) × (get_or b 1 0 ≡ get_or b 0 0)

find_header-Begins : (b : List ℕ) (s : ℕ) → find_header b ≡ some s → Begins (drop s b)
unfolding find_header
find_header-Begins [] s e = cc
find_header-Begins (x ∷ []) s e = cc
find_header-Begins (x ∷ y ∷ r) zero e = ground arith
find_header-Begins (x ∷ y ∷ r) (suc s) e = find_header-Begins (y ∷ r) s (ground (arith, e))

get_or-take-drop : (k h : ℕ) (xs : List ℕ) → 0 < k → get_or (take k (drop h xs)) 0 0 ≡ get_or xs h 0
get_or-take-drop zero h xs p = absurd (omega arith)
get_or-take-drop (suc k) zero [] p = refl
get_or-take-drop (suc k) zero (x ∷ xs) p = refl
get_or-take-drop (suc k) (suc h) [] p = refl
get_or-take-drop (suc k) (suc h) (x ∷ xs) p = get_or-take-drop (suc k) h xs p

-- What the checks of the loop say of the bytes of a whole frame.
module _ (raw : List ℕ) (n : ℕ) (size : length raw ≡ n)
    (total : n ≡ header_length raw + payload_length raw + 2) (long_enough : 5 ≤ payload_length raw)
    (small : n ≤ max_frame_size) (whole : is_intact raw n ≡ true) (begins : Begins raw) where
  abbrev f : Frame
  f = frame_of raw n

  length-payload : length f.payload + header_length raw + 6 ≡ n
  unfolding frame_of header_length
  length-payload = omega (
    arith,
    size,
    total,
    long_enough,
    length-take (n - 6 - header_length raw) (drop (header_length raw) raw),
    length-drop (header_length raw) raw,
  )

  frame_of-IsGenuine : IsGenuine f
  unfolding frame_of header_length payload_length is_intact
  frame_of-IsGenuine = record {
    marked = ground (arith, begins);
    stated = ground (arith, length-payload, total);
    measured = ground (arith, length-payload, size);
    filled = ground (arith, length-payload, total, long_enough);
    content = ground (arith, length-payload);
    kind =
        get_or-take-drop (n - 6 - header_length raw) (header_length raw) raw
          (ground (arith, total, long_enough));
    numbered = ap (λ k. read_uint16_be raw (k - 6)) (sym size);
    checked =
        subst (λ k. read_uint16_be raw (k - 4) ≡ crc16itu raw 2 (k - 4)) (sym size)
          (ground (arith, whole));
    ended =
        subst (λ k. (get_or raw (k - 2) 0 ≡ 0x0d) × (get_or raw (k - 1) 0 ≡ 0x0a)) (sym size)
          (ground (arith, whole));
    bounded = omega (arith, size, small);
  }

-- The bytes of a frame that the loop takes off a buffer.
module _ (b : List ℕ) (f : Frame) (n : ℕ) (e : judge b ≡ emit f n) (begins : Begins b) where
  judge-inv :
      (n ≡ header_length b + payload_length b + 2)
      × (f ≡ frame_of (take n b) n)
      × (is_intact (take n b) n ≡ true)
      × (n ≤ length b)
      × (n ≤ max_frame_size)
      × (5 ≤ payload_length b)
  unfolding judge
  judge-inv = ground arith

  length-raw : length (take n b) ≡ n
  length-raw = omega (arith, length-take n b, judge-inv)

  abbrev same_bytes : take n b ++ drop n b ≡ b
  same_bytes = take-append-drop n b

  header_kept : header_length (take n b) ≡ header_length b
  header_kept =
      sym (header_length-append (take n b) (drop n b) (omega (arith, length-raw, judge-inv)))
      ∙ ap header_length same_bytes

  payload_kept : payload_length (take n b) ≡ payload_length b
  payload_kept =
      sym (
        payload_length-append (take n b) (drop n b)
          (omega (arith, length-raw, header_kept, judge-inv)))
      ∙ ap payload_length same_bytes

  byte_kept : (i : ℕ) → i < 2 → get_or (take n b) i 0 ≡ get_or b i 0
  byte_kept i h =
      sym (get_or-append (take n b) (drop n b) i 0 (omega (arith, length-raw, judge-inv, h)))
      ∙ ap (λ r. get_or r i 0) same_bytes

  judge-IsGenuine : IsGenuine f
  judge-IsGenuine = subst IsGenuine (sym judge-inv.1) (
      frame_of-IsGenuine (take n b) n length-raw
        (omega (arith, header_kept, payload_kept, judge-inv))
        (omega (arith, payload_kept, judge-inv)) (omega (arith, judge-inv)) judge-inv.2
        (
          ap is_marker (byte_kept 0 (omega arith)) ∙ begins.0,
          byte_kept 1 (omega arith) ∙ begins.1 ∙ sym (byte_kept 0 (omega arith)),
        ))

pub Decodes-IsGenuine : {b r : List ℕ} {fs : List Frame} → Decodes b fs r → All IsGenuine fs
Decodes-IsGenuine (no_header e l) = tt
Decodes-IsGenuine (incomplete s e j l) = tt
Decodes-IsGenuine (malformed s e j t) = Decodes-IsGenuine t
Decodes-IsGenuine {b} (intact s f n e j t) =
    (judge-IsGenuine (drop s b) f n j (find_header-Begins b s e), Decodes-IsGenuine t)

-- Every frame that `feed` returns, on a chunk that fits MAX_RX_BUFFER after the bytes that the decoder
-- holds, is genuine: its bytes are a header, the length of the payload and four more, the payload, a
-- serial number, the checksum of what stands between the header and the checksum, and the footer; the
-- frame's payload, protocol number and serial number are those of the bytes, of which there are 4096 at
-- most.
pub feed-IsGenuine :
    (d d₁ : FrameDecoder) (chunk : List ℕ) (fs : List Frame)
    → length d.buffer + length chunk ≤ max_rx_buffer
    → feed d chunk ≡ some (d₁, fs)
    → All IsGenuine fs
feed-IsGenuine d d₁ [] fs h e = subst (All IsGenuine) (same_result (feed-empty d) e).1 tt
feed-IsGenuine d d₁ (x ∷ c) fs h e =
    let (rest, decoded, left) = Returns-inv _ d₁ fs e (feed-Decodes d (x ∷ c) h (omega arith)) in
    Decodes-IsGenuine decoded
