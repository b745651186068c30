-- ===== src/Gt06/Decoder.antt =====
-- src/simulator/gt06.js: `FrameDecoder` and `findHeader`.
pub mod Scan
pub mod Decodes
pub mod Chunks
pub mod Feed
pub mod Sound
use mathlib.Core.Option
use gps_device_virtual_farm.Prelude.{
  ℕ, zero, suc, ◌+◌, ◌-◌, Bool, ◌&&◌, ◌||◌, not, Option, none, some, List, [], ◌∷◌, ◌++◌, ltb, ◌==◌,
  if◌then◌else◌, length, get_or, take, drop,
}
use gps_device_virtual_farm.Gt06.Buffer.{subarray, read_uint16_be}
use gps_device_virtual_farm.Gt06.Crc.{crc16itu}

-- The objects that `feed` returns.
pub record Frame : Type 0 where
  pub protocol : ℕ
  pub serial : ℕ
  pub payload : List ℕ
  pub raw : List ℕ
  pub long_header : Bool

-- The fields of a FrameDecoder.
pub record FrameDecoder : Type 0 where
  pub buffer : List ℕ
  pub malformed_frames : ℕ

-- The constructor.
abbrev pub new_decoder : FrameDecoder
new_decoder = record { buffer = []; malformed_frames = 0 }

-- `MAX_RX_BUFFER` and `MAX_FRAME_SIZE`
abbrev pub max_rx_buffer : ℕ
max_rx_buffer = 65536

abbrev pub max_frame_size : ℕ
max_frame_size = 4096

abbrev pub is_marker : ℕ → Bool
is_marker b = b == 0x78 || b == 0x79

-- `findHeader(buffer)`, with `none` for -1
unfoldable pub find_header : List ℕ → Option ℕ
find_header [] = none
find_header (x ∷ []) = none
find_header (x ∷ y ∷ r) =
    if is_marker x && y == x then some 0 else Option.map suc (find_header (y ∷ r))

-- What is kept of a buffer with no header: its last byte, if a header may begin there.
pub trailing : List ℕ → List ℕ
trailing [] = []
trailing (x ∷ []) = if is_marker x then x ∷ [] else []
trailing (x ∷ y ∷ r) = trailing (y ∷ r)

-- What the loop of `feed` finds in a buffer that begins with a header: too few bytes yet, a frame
-- that is malformed, or a frame and its length.
pub data Verdict : Type 0 where
  wait skip : Verdict
  emit : Frame → ℕ → Verdict

unfoldable pub header_length : List ℕ → ℕ
header_length b = if get_or b 0 0 == 0x79 then 4 else 3

unfoldable pub payload_length : List ℕ → ℕ
payload_length b = if get_or b 0 0 == 0x79 then read_uint16_be b 2 else get_or b 2 0

-- The two checks on the bytes of a whole frame: its footer and its checksum.
unfoldable pub is_intact : List ℕ → ℕ → Bool
is_intact raw total =
    (get_or raw (total - 2) 0 == 0x0d && get_or raw (total - 1) 0 == 0x0a)
    && read_uint16_be raw (total - 4) == crc16itu raw 2 (total - 4)

-- The frame that is pushed.
unfoldable pub frame_of : List ℕ → ℕ → Frame
frame_of raw total =
    let body = subarray raw (header_length raw) (total - 6) in
    record {
      protocol = get_or body 0 0;
      serial = read_uint16_be raw (total - 6);
      payload = body;
      raw = raw;
      long_header = get_or raw 0 0 == 0x79;
    }

-- The body of the loop, once the buffer begins with a header.
unfoldable pub judge : List ℕ → Verdict
judge b =
    let total = header_length b + payload_length b + 2 in
    if ltb (length b) (header_length b)
    then wait
    else if ltb (payload_length b) 5 || ltb max_frame_size total
    then skip
    else if ltb (length b) total
    then wait
    else if is_intact (take total b) total
    then emit (frame_of (take total b) total) total
    else skip

-- The loop of `feed`. Each round that goes on drops a byte at least. `none` would mean that the fuel
-- ran out.
unfoldable pub feed_loop : ℕ → List ℕ → ℕ → List Frame → Option (FrameDecoder × List Frame)
feed_loop zero b malformed frames = none
feed_loop (suc fuel) b malformed frames =
    if ltb (length b) 2
    then some (record { buffer = b; malformed_frames = malformed }, frames)
    else elim (find_header b) [
      | none ↦ some (record { buffer = trailing b; malformed_frames = malformed }, frames)
      | some start ↦
          let b' = drop start b in
          let malformed' = if ltb 0 start then malformed + 1 else malformed in
          elim (judge b') [
            | wait ↦ some (record { buffer = b'; malformed_frames = malformed' }, frames)
            | skip ↦ feed_loop fuel (drop 1 b') (malformed' + 1) frames
            | emit f total ↦ feed_loop fuel (drop total b') malformed' (frames ++ f ∷ [])
          ]
    ]

-- `feed(chunk)`
unfoldable pub feed : FrameDecoder → List ℕ → Option (FrameDecoder × List Frame)
unfolding feed_loop find_header trailing judge header_length payload_length is_intact frame_of
feed d chunk =
    let joined = d.buffer ++ chunk in
    let over = ltb max_rx_buffer (length joined) in
    let kept = if over then drop (length joined - max_rx_buffer) joined else joined in
    let malformed = if over then d.malformed_frames + 1 else d.malformed_frames in
    if length chunk == 0 then some (d, []) else feed_loop (length kept + 1) kept malformed []
