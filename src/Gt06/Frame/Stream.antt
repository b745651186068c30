-- ===== src/Gt06/Frame/Stream.antt =====
-- A stream of built frames is decoded to the payloads and serial numbers that were put in.
use mathlib.Core.List.{append_assoc, flatten}
use gps_device_virtual_farm.Prelude.{
  ℕ, zero, suc, ◌+◌, ◌-◌, ◌%◌, ◌≤◌, ◌<◌, ◌≡◌, refl, sym, ap, ◌∙◌, bit_and, true, false, Option,
  none, some, List, [], ◌∷◌, ◌++◌, map, arith, ltb, ◌==◌, length, length-append, get_or, take, drop,
  All, All-append, take-append, take-length, take-length_append, get_or-append, get_or-append_right,
  drop-length_append, Option-cases, Bool-cases, inl, inr,
}
use gps_device_virtual_farm.Prelude.Bits.{bit_and_mask}
use gps_device_virtual_farm.Gt06.Buffer.{IsByte, AreBytes, subarray, uint16_be}
use gps_device_virtual_farm.Gt06.Crc.{crc16itu}
use gps_device_virtual_farm.Gt06.Crc.Laws.{crc16itu-lt, crc16itu-append}
use gps_device_virtual_farm.Gt06.Decoder.{
  Frame, FrameDecoder, new_decoder, find_header, judge, emit, feed_loop, feed, max_rx_buffer,
  is_intact, frame_of, header_length, payload_length,
}
use gps_device_virtual_farm.Gt06.Decoder.Scan.{judge-append}
use gps_device_virtual_farm.Gt06.Decoder.Decodes.{feed_loop_short, feed_loop_emit, no_more}
use gps_device_virtual_farm.Gt06.Decoder.Feed.{feed_all, feed_all-flatten, same_result}
use gps_device_virtual_farm.Gt06.Frame.{frame_head, frame_bytes, build_frame}

-- The frame that the receiver is to see.
abbrev pub received : List ℕ → ℕ → Frame
received payload serial = record {
  protocol = get_or payload 0 0;
  serial = serial % 65536;
  payload = payload;
  raw = frame_bytes payload serial;
  long_header = false;
}

module _ (payload : List ℕ) (serial : ℕ) (fits : length payload + 4 ≤ 255)
    (bytes : AreBytes payload) where
  serial16 : bit_and serial 0xffff ≡ serial % 65536
  serial16 = bit_and_mask 16 serial

  length-frame_head : length (frame_head payload serial) ≡ length payload + 5
  unfolding frame_head
  length-frame_head = omega (arith, length-append payload (uint16_be (bit_and serial 0xffff)))

  frame_head_bytes : AreBytes (frame_head payload serial)
  unfolding frame_head
  frame_head_bytes = (
    omega arith,
    (
      omega arith,
      (
        omega arith,
        All-append IsByte payload (uint16_be (bit_and serial 0xffff)) bytes
            (omega (arith, serial16)),
      ),
    ),
  )

  pub length-frame_bytes : length (frame_bytes payload serial) ≡ length payload + 9
  unfolding frame_bytes
  length-frame_bytes = omega (
    arith,
    length-frame_head,
    length-append (frame_head payload serial) (
        uint16_be (crc16itu (frame_head payload serial) 2 (length (frame_head payload serial)))
        ++ 0x0d ∷ 0x0a ∷ []),
  )

  abbrev checksum : ℕ
  checksum = crc16itu (frame_head payload serial) 2 (length (frame_head payload serial))

  abbrev tail : List ℕ
  tail = uint16_be checksum ++ 0x0d ∷ 0x0a ∷ []

  -- The four last bytes of a frame, by their distance from its head.
  byte_behind :
      (i : ℕ) → get_or (frame_bytes payload serial) (length payload + 5 + i) 0 ≡ get_or tail i 0
  unfolding frame_bytes
  byte_behind i =
      ap (λ n. get_or (frame_head payload serial ++ tail) (n + i) 0) (sym length-frame_head)
      ∙ get_or-append_right (frame_head payload serial) tail i 0

  byte_at :
      (i j : ℕ)
      → j ≡ length payload + 5 + i
      → get_or (frame_bytes payload serial) j 0 ≡ get_or tail i 0
  byte_at i j e = ap (λ n. get_or (frame_bytes payload serial) n 0) e ∙ byte_behind i

  checksum-lt : checksum < 65536
  checksum-lt =
      crc16itu-lt (frame_head payload serial) 2 (length (frame_head payload serial))
        frame_head_bytes (omega (arith, length-frame_head)) (omega arith)

  frame_bytes-checksum : crc16itu (frame_bytes payload serial) 2 (length payload + 9 - 4) ≡ checksum
  unfolding frame_bytes
  frame_bytes-checksum =
      let at : length payload + 9 - 4 ≡ length (frame_head payload serial) =
        omega (arith, length-frame_head) in
      ap (crc16itu (frame_head payload serial ++ tail) 2) at
      ∙ crc16itu-append (frame_head payload serial) tail 2 _ (omega (arith, length-frame_head))
          (omega arith)

  frame_bytes_intact : is_intact (frame_bytes payload serial) (length payload + 9) ≡ true
  unfolding is_intact
  frame_bytes_intact =
      rw
        (
          byte_at 2 (length payload + 9 - 2) (omega arith),
          byte_at 3 (length payload + 9 - 1) (omega arith),
          byte_at 0 (length payload + 9 - 4) (omega arith),
          byte_at 1 (length payload + 9 - 4 + 1) (omega arith),
          frame_bytes-checksum,
        )
        (ground arith)

  -- The serial number stands behind the payload.
  serial_at :
      (i j : ℕ)
      → j ≡ length payload + 3 + i
      → i < 2
      → get_or (frame_bytes payload serial) j 0 ≡ get_or (uint16_be (bit_and serial 0xffff)) i 0
  unfolding frame_bytes
  serial_at i j e h =
      ap (λ n. get_or (frame_bytes payload serial) n 0) (e ∙ omega arith)
      ∙ get_or-append (frame_head payload serial) tail (suc (suc (suc (length payload + i)))) 0
          (omega (arith, length-frame_head))
      ∙ unfold frame_head in get_or-append_right payload (uint16_be (bit_and serial 0xffff)) i 0

  body_at : subarray (frame_bytes payload serial) 3 (length payload + 9 - 6) ≡ payload
  unfolding frame_bytes frame_head
  body_at =
      let rest = uint16_be (bit_and serial 0xffff) in
      ap (λ n. take n ((payload ++ rest) ++ tail)) (omega arith)
      ∙ take-append (length payload) (payload ++ rest) tail
          (omega (arith, length-append payload rest))
      ∙ take-length_append payload rest

  frame_bytes_header :
      (header_length (frame_bytes payload serial) ≡ 3)
      × (payload_length (frame_bytes payload serial) ≡ length payload + 4)
      × (get_or (frame_bytes payload serial) 0 0 ≡ 0x78)
  unfolding frame_bytes frame_head header_length payload_length
  frame_bytes_header = (refl, refl, refl)

  frame_of-frame_bytes :
      frame_of (frame_bytes payload serial) (length payload + 9) ≡ received payload serial
  unfolding frame_of
  frame_of-frame_bytes =
      let (header, size, first) = frame_bytes_header in
      rw
        (
          header,
          body_at,
          first,
          serial_at 0 (length payload + 9 - 6) (omega arith) (omega arith),
          serial_at 1 (length payload + 9 - 6 + 1) (omega arith) (omega arith),
        )
        (ground (arith, serial16))

  judge-frame_bytes :
      0 < length payload
      → judge (frame_bytes payload serial) ≡ emit (received payload serial) (length payload + 9)
  unfolding judge
  judge-frame_bytes some_payload =
      let (header, size, first) = frame_bytes_header in
      let total : 3 + (length payload + 4) + 2 ≡ length payload + 9 = omega arith in
      let all : take (length payload + 9) (frame_bytes payload serial)
          ≡ frame_bytes payload serial =
        ap (λ n. take n (frame_bytes payload serial)) (sym length-frame_bytes)
        ∙ take-length (frame_bytes payload serial) in
      rw (header, size, total, all, frame_bytes_intact, frame_of-frame_bytes, length-frame_bytes)
        (ground arith)

-- The bytes of a list of payloads with their serial numbers, built one after the other.
unfoldable pub build_frames : List (List ℕ × ℕ) → Option (List ℕ)
build_frames [] = some []
build_frames ((payload, serial) ∷ ps) = elim (build_frame payload serial) [
  | none ↦ none
  | some frame ↦ elim (build_frames ps) [ none ↦ none | some rest ↦ some (frame ++ rest) ]
]

build_frame-inv :
    (payload : List ℕ) (serial : ℕ) {frame : List ℕ}
    → build_frame payload serial ≡ some frame
    → (frame ≡ frame_bytes payload serial) × (0 < length payload) × (length payload + 4 ≤ 255)
unfolding build_frame
build_frame-inv payload serial h = ground arith

find_header-frame_bytes :
    (payload rest : List ℕ) (serial : ℕ) → find_header (frame_bytes payload serial ++ rest) ≡ some 0
unfolding find_header frame_bytes frame_head
find_header-frame_bytes payload rest serial = refl

abbrev pub seen : List ℕ × ℕ → Frame
seen (payload, serial) = received payload serial

-- The loop reads one frame off the front.
feed_loop-frame_bytes :
    (fuel m : ℕ) (payload rest : List ℕ) (serial : ℕ) (before : List Frame)
    → 0 < length payload
    → length payload + 4 ≤ 255
    → AreBytes payload
    → feed_loop (suc fuel) (frame_bytes payload serial ++ rest) m before
      ≡ feed_loop fuel rest m (before ++ received payload serial ∷ [])
feed_loop-frame_bytes fuel m payload rest serial before p fits bytes =
    let frame = frame_bytes payload serial in
    let size : length frame ≡ length payload + 9 = length-frame_bytes payload serial fits bytes in
    let good = judge-frame_bytes payload serial fits bytes p in
    let found = find_header-frame_bytes payload rest serial in
    let long : ltb (length (frame ++ rest)) 2 ≡ false = ground (arith, length-append frame rest) in
    let good' = judge-append frame rest (λ w. cc) ∙ good in
    feed_loop_emit fuel (frame ++ rest) m before long 0 (received payload serial)
      (length payload + 9) found good'
    ∙ ap (λ b. feed_loop fuel b m (before ++ received payload serial ∷ []))
        (ap (λ n. drop n (frame ++ rest)) (sym size) ∙ drop-length_append frame rest)

feed_loop-build_frames :
    (ps : List (List ℕ × ℕ)) (fuel m : ℕ) (before : List Frame) {bytes : List ℕ}
    → All (λ p. AreBytes p.0) ps
    → build_frames ps ≡ some bytes
    → length bytes < fuel
    → feed_loop fuel bytes m before
      ≡ some (record { buffer = []; malformed_frames = m }, before ++ map seen ps)
unfolding build_frames
feed_loop-build_frames ps zero m before a e h = absurd (omega arith)
feed_loop-build_frames [] (suc fuel) m before {bytes} a e h =
    let nothing : [] ≡ bytes = cc in
    ap (λ b. feed_loop (suc fuel) b m before) (sym nothing)
    ∙ feed_loop_short fuel [] m before (omega arith)
    ∙ no_more _ before
feed_loop-build_frames ((payload, serial) ∷ ps) (suc fuel) m before {bytes} a e h =
    elim (Option-cases (build_frame payload serial)) [
      | inl b ↦ absurd (ground arith)
      | inr (frame, b) ↦ elim (Option-cases (build_frames ps)) [
        | inl c ↦ absurd (ground arith)
        | inr (rest, c) ↦
            let (f, p, fits) = build_frame-inv payload serial b in
            let whole : frame_bytes payload serial ++ rest ≡ bytes = ground arith in
            let size = length-append (frame_bytes payload serial) rest in
            let more = length-frame_bytes payload serial fits a.0 in
            ap (λ x. feed_loop (suc fuel) x m before) (sym whole)
            ∙ feed_loop-frame_bytes fuel m payload rest serial before p fits a.0
            ∙ feed_loop-build_frames ps fuel m (before ++ received payload serial ∷ []) a.1 c
                (omega (arith, size, more, ap length whole))
            ∙ ap (λ fs. some (record { buffer = []; malformed_frames = m }, fs))
                (append_assoc before (received payload serial ∷ []) (map seen ps))
      ]
    ]

no_packets :
    (ps : List (List ℕ × ℕ)) (bytes : List ℕ)
    → build_frames ps ≡ some bytes
    → length bytes ≡ 0
    → ◌≡◌ {A = Option (FrameDecoder × List Frame)}
        (some (new_decoder, []))
        (some (new_decoder, map seen ps))
unfolding build_frames frame_bytes frame_head
no_packets [] bytes e h = refl
no_packets ((payload, serial) ∷ ps) bytes e h = elim (Option-cases (build_frame payload serial)) [
  | inl b ↦ absurd (ground arith)
  | inr (frame, b) ↦ elim (Option-cases (build_frames ps)) [
    | inl c ↦ absurd (ground arith)
    | inr (rest, c) ↦
        let (f, p, fits) = build_frame-inv payload serial b in
        let whole : frame_bytes payload serial ++ rest ≡ bytes = ground arith in
        absurd (omega (arith, ap length whole))
  ]
]

-- What `buildFrame` builds, one frame after the other, `feed` reads back: on a fresh decoder, from at
-- most MAX_RX_BUFFER bytes, it returns exactly the payloads with their serial numbers modulo 65536,
-- in order, keeps no byte, and counts no malformed frame.
pub feed-build_frames :
    (packets : List (List ℕ × ℕ)) (bytes : List ℕ)
    → All (λ p. AreBytes p.0) packets
    → build_frames packets ≡ some bytes
    → length bytes ≤ max_rx_buffer
    → feed new_decoder bytes ≡ some (new_decoder, map seen packets)
unfolding feed
feed-build_frames packets bytes a e h = elim (Bool-cases (length bytes == 0)) [
  | inl nothing ↦ rw nothing (no_packets packets bytes e (ground arith))
  | inr many ↦
      let fits : ltb max_rx_buffer (length bytes) ≡ false = ground arith in
      rw (many, fits) (feed_loop-build_frames packets (length bytes + 1) 0 [] a e (omega arith))
]

-- What `buildFrame` builds from payloads of bytes, one frame after the other and MAX_RX_BUFFER bytes at
-- most, arrives however it is cut into chunks: `feed`, called on a fresh decoder with one chunk after
-- the other, returns in all exactly the payloads with their serial numbers modulo 65536, in order.
pub feed_all-build_frames :
    (packets : List (List ℕ × ℕ)) (chunks : List (List ℕ))
    → All (λ p. AreBytes p.0) packets
    → build_frames packets ≡ some (flatten chunks)
    → length (flatten chunks) ≤ max_rx_buffer
    → (d : FrameDecoder) × (feed_all new_decoder chunks ≡ some (d, map seen packets))
feed_all-build_frames packets chunks a e h =
    let (d₁, d₂, fs, p, q) = feed_all-flatten new_decoder chunks (omega arith) in
    let whole = feed-build_frames packets (flatten chunks) a e h in
    let (k, l) = same_result q whole in (d₁, p ∙ ap (λ x. some (d₁, x)) l)
