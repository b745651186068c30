-- ===== src/Gt06/Frame/Command.antt =====
-- Every login packet carries its IMEI, every answer to a command can be built, and a command is read
-- from a frame that carries it.
use mathlib.Core.List.{append-nil}
use gps_device_virtual_farm.Gt06.Crc.{crc16itu}
use gps_device_virtual_farm.Prelude.{
  ℕ, ◌+◌, ◌-◌, ◌%◌, ◌^◌, ◌≤◌, ◌<◌, ◌≡◌, refl, sym, ap, ◌∙◌, bit_and, true, some, List, [], ◌∷◌,
  ◌++◌, arith, length, length-append, length-take, take, All, All-append, take-length_append,
}
use gps_device_virtual_farm.Gt06.Buffer.{
  IsByte, AreBytes, subarray, uint16_be, uint32_be, write_uint32_be, read_uint32_be,
}
use gps_device_virtual_farm.Gt06.Bcd.{
  is_imei, encode_imei_bcd, decode_imei_bcd, decode_imei_bcd-encode_imei_bcd,
}
use gps_device_virtual_farm.Gt06.Decoder.{Frame, new_decoder, feed}
use gps_device_virtual_farm.Gt06.Frame.{
  frame_head, frame_bytes, build_frame, build_login, build_command_response, ascii,
  parse_server_command,
}
use gps_device_virtual_farm.Gt06.Frame.Stream.{
  received, build_frames, feed-build_frames, length-frame_bytes,
}

pub build_frame-some :
    (payload : List ℕ) (serial : ℕ)
    → 0 < length payload
    → length payload + 4 ≤ 255
    → build_frame payload serial ≡ some (frame_bytes payload serial)
unfolding build_frame
build_frame-some payload serial p h = ground arith

build_frames_one :
    (payload bytes : List ℕ) (serial : ℕ)
    → build_frame payload serial ≡ some bytes
    → build_frames ((payload, serial) ∷ []) ≡ some bytes
unfolding build_frames
build_frames_one payload bytes serial e = rw (e, build_frames) (ap some (append-nil bytes))

feed-build_frame :
    (payload bytes : List ℕ) (serial : ℕ)
    → AreBytes payload
    → 0 < length payload
    → length payload + 4 ≤ 255
    → build_frame payload serial ≡ some bytes
    → feed new_decoder bytes ≡ some (new_decoder, received payload serial ∷ [])
feed-build_frame payload bytes serial a p h e =
    let built = build_frame-some payload serial p h in
    let same_bytes : frame_bytes payload serial ≡ bytes = cc in
    let size = length-frame_bytes payload serial h a in
    feed-build_frames ((payload, serial) ∷ []) bytes (a, tt)
      (build_frames_one payload bytes serial e) (omega (arith, size, ap length same_bytes))

pub login_eq :
    (imei bcd : List ℕ) (serial : ℕ)
    → encode_imei_bcd imei ≡ some bcd
    → build_login imei serial ≡ build_frame (0x01 ∷ (bcd ++ uint16_be 0x0001)) serial
unfolding build_login
login_eq imei bcd serial e = rw (e, build_login) refl

-- A login packet for any IMEI can be built. The receiver reads one frame from it, of protocol 1 and
-- with the serial number modulo 65536, and bytes 1 to 8 of its payload decode to the IMEI.
pub feed-build_login :
    (imei : List ℕ) (serial : ℕ)
    → is_imei imei ≡ true
    → (bytes : List ℕ) × (f : Frame) × (build_login imei serial ≡ some bytes)
      × (feed new_decoder bytes ≡ some (new_decoder, f ∷ []))
      × (f.protocol ≡ 1)
      × (f.serial ≡ serial % 65536)
      × (decode_imei_bcd (subarray f.payload 1 9) ≡ some imei)
feed-build_login imei serial h =
    let (bcd, e, size, small, back) = decode_imei_bcd-encode_imei_bcd imei h in
    let payload = 0x01 ∷ (bcd ++ uint16_be 0x0001) in
    let sizes = length-append bcd (uint16_be 0x0001) in
    let bytes_ok : AreBytes payload =
      (omega arith, All-append IsByte bcd (uint16_be 0x0001) small (omega arith)) in
    let built = build_frame-some payload serial (omega arith) (omega (arith, sizes)) in
    let slice : take 8 (bcd ++ uint16_be 0x0001) ≡ bcd =
      ap (λ n. take n (bcd ++ uint16_be 0x0001)) (sym size)
      ∙ take-length_append bcd (uint16_be 0x0001) in
    (
      frame_bytes payload serial,
      received payload serial,
      login_eq imei bcd serial e ∙ built,
      feed-build_frame payload (frame_bytes payload serial) serial bytes_ok (omega arith)
          (omega (arith, sizes)) built,
      refl,
      refl,
      ap decode_imei_bcd slice ∙ back,
    )

length_frame :
    (payload : List ℕ) (serial : ℕ) → length (frame_bytes payload serial) ≡ length payload + 9
unfolding frame_bytes frame_head
length_frame payload serial =
    let head = payload ++ uint16_be (bit_and serial 0xffff) in
    omega (
      arith,
      length-append head (
          uint16_be (
            crc16itu (0x78 ∷ 0x78 ∷ (length payload + 4) ∷ head) 2
              (length (0x78 ∷ 0x78 ∷ (length payload + 4) ∷ head)))
          ++ 0x0d ∷ 0x0a ∷ []),
      length-append payload (uint16_be (bit_and serial 0xffff)),
    )

pub write_uint32_be-some :
    (value : ℕ) → value < 2 ^ 32 → write_uint32_be value ≡ some (uint32_be value)
unfolding write_uint32_be
write_uint32_be-some value h = ground (arith, h)

-- An answer to a command can always be built: whatever the flag is, what is written of it is in the range
-- of `writeUInt32BE`, and however long the answer is, the frame has 197 bytes at most.
pub build_command_response-some :
    (serial flag : ℕ) (content : List ℕ)
    → (bytes : List ℕ) × (build_command_response serial flag content ≡ some bytes)
      × (length bytes ≤ 197)
unfolding build_command_response
build_command_response-some serial flag content =
    let text = take 180 content in
    let payload =
      0x15 ∷ (4 + length text + 2) ∷ (uint32_be (flag % 2 ^ 32) ++ (text ++ uint16_be 0x0001)) in
    let size : length payload ≡ length text + 8 =
      omega (arith, length-append text (uint16_be 0x0001)) in
    let short : length text ≤ 180 = omega (arith, length-take 180 content) in
    (
      frame_bytes payload serial,
      rw (build_command_response, write_uint32_be-some (flag % 2 ^ 32) (omega arith))
          (build_frame-some payload serial (omega arith) (omega arith)),
      omega (arith, length_frame payload serial),
    )

ascii_lem : (cs : List ℕ) → All (λ c. c < 128) cs → ascii cs ≡ cs
unfolding ascii
ascii_lem [] a = refl
ascii_lem (c ∷ cs) a = rw (ascii_lem cs a.1) (ap (λ d. d ∷ cs) (omega arith))

-- A frame that carries a command of at most 512 ASCII bytes, with its length and flag, is read as this
-- command and flag, whatever follows the command.
pub parse_server_command_lem :
    (f : Frame) (flag : ℕ) (command rest : List ℕ)
    → f.protocol ≡ 0x80
    → f.payload ≡ 0x80 ∷ (uint32_be (length command) ++ (uint32_be flag ++ (command ++ rest)))
    → All (λ c. c < 128) command
    → length command ≤ 512
    → flag < 2 ^ 32
    → parse_server_command f ≡ some (record { server_flag = flag; command = command })
unfolding parse_server_command
parse_server_command_lem f flag command rest p e a h k =
    let text : ascii (take (9 + length command - 9) (command ++ rest)) ≡ command =
      ap (λ n. ascii (take n (command ++ rest))) (omega arith)
      ∙ ap ascii (take-length_append command rest)
      ∙ ascii_lem command a in
    let size : read_uint32_be (0x80 ∷ uint32_be (length command)) 1 ≡ length command =
      omega arith in
    let flags : read_uint32_be (0x80 ∷ uint32_be flag) 1 ≡ flag = omega arith in
    rw (e, p, size, flags, text) (ground (arith, length-append command rest))
