-- ===== src/Gt06/Frame.antt =====
-- src/simulator/gt06.js: the builders of frames, and `parseServerCommand`. `none` is a thrown error,
-- or the `null` of `parseServerCommand`.
pub mod Stream
pub mod Command
pub mod Built
use gps_device_virtual_farm.Prelude.{
  ℕ, ◌+◌, ◌-◌, ◌*◌, ◌/◌, ◌%◌, ◌^◌, bit_and, bit_or, Bool, true, false, not, ◌||◌, Option, none,
  some, List, [], ◌∷◌, ◌++◌, ltb, ◌==◌, if◌then◌else◌, length, take,
}
use gps_device_virtual_farm.Gt06.Buffer.{subarray, uint16_be, write_uint32_be, read_uint32_be}
use gps_device_virtual_farm.Gt06.Crc.{crc16itu}
use gps_device_virtual_farm.Gt06.Bcd.{encode_imei_bcd}
use gps_device_virtual_farm.Gt06.Decoder.{Frame}

-- What `buildFrame` has written up to the checksum: the header, the payload and the serial number.
unfoldable pub frame_head : List ℕ → ℕ → List ℕ
frame_head payload serial =
    0x78 ∷ 0x78 ∷ (length payload + 4) ∷ (payload ++ uint16_be (bit_and serial 0xffff))

-- The whole frame; the checksum starts at the length byte.
unfoldable pub frame_bytes : List ℕ → ℕ → List ℕ
frame_bytes payload serial =
    let head = frame_head payload serial in
    head ++ (uint16_be (crc16itu head 2 (length head)) ++ 0x0d ∷ 0x0a ∷ [])

-- `buildFrame(data, serial)`
unfoldable pub build_frame : List ℕ → ℕ → Option (List ℕ)
unfolding frame_bytes frame_head
build_frame payload serial =
    if length payload == 0
    then none
    else if ltb 255 (length payload + 4)
    then none
    else some (frame_bytes payload serial)

-- `buildLogin(imei, serial)`
unfoldable pub build_login : List ℕ → ℕ → Option (List ℕ)
build_login imei serial = elim (encode_imei_bcd imei) [
  | none ↦ none
  | some bcd ↦ build_frame (0x01 ∷ (bcd ++ uint16_be 0x0001)) serial
]

-- `buildHeartbeat(serial, ignition)`
unfoldable pub build_heartbeat : ℕ → Bool → Option (List ℕ)
build_heartbeat serial ignition =
    let terminal_info = bit_or 0x04 (if ignition then 0x02 else 0x00) in
    build_frame (0x13 ∷ terminal_info ∷ 0x04 ∷ 0x04 ∷ 0x00 ∷ 0x01 ∷ []) serial

-- `buildCommandResponse(serial, serverFlag, content)`, for ASCII content; `serverFlag >>> 0` is the flag
-- modulo 2 ^ 32
unfoldable pub build_command_response : ℕ → ℕ → List ℕ → Option (List ℕ)
build_command_response serial server_flag content =
    let bytes = take 180 content in
    elim (write_uint32_be (server_flag % 2 ^ 32)) [
      | none ↦ none
      | some flag ↦
          build_frame (0x15 ∷ (4 + length bytes + 2) ∷ (flag ++ (bytes ++ uint16_be 0x0001))) serial
    ]

-- `buildAck(protocol, serial)`
unfoldable pub build_ack : ℕ → ℕ → Option (List ℕ)
build_ack protocol serial = build_frame (bit_and protocol 0xff ∷ []) serial

-- What `parseServerCommand` returns.
pub record ServerCommand : Type 0 where
  pub server_flag : ℕ
  pub command : List ℕ

-- `parseServerCommand(frame)`. `toString('ascii')` clears the top bit of each byte.
ascii : List ℕ → List ℕ
ascii [] = []
ascii (b ∷ bs) = b % 128 ∷ ascii bs

unfoldable pub parse_server_command : Frame → Option ServerCommand
unfolding ascii
parse_server_command f =
    let command_length = read_uint32_be f.payload 1 in
    let command_end = 9 + command_length in
    if not (f.protocol == 0x80) || ltb (length f.payload) 9
    then none
    else if ltb 512 command_length || ltb (length f.payload) command_end
    then none
    else some (record {
      server_flag = read_uint32_be f.payload 5;
      command = ascii (subarray f.payload 9 command_end);
    })
