-- ===== src/Gt06/Examples.antt =====
-- The theorems on src/simulator/gt06.js at concrete frames.
use mathlib.Core.List.{flatten}
use gps_device_virtual_farm.Prelude.{
  ℕ, ◌+◌, ◌*◌, ◌/◌, ◌%◌, ◌^◌, ◌≤◌, ◌<◌, ◌≡◌, ◌≢◌, ◌↔◌, refl, bit_xor, true, false, not, some, List,
  [], ◌∷◌, ◌++◌, map, arith, All, length, if◌then◌else◌,
}
use gps_device_virtual_farm.Gt06.Buffer.{AreBytes, subarray, uint32_be}
use gps_device_virtual_farm.Gt06.Crc.{
  crc16itu, crc_loop, crc_step, crc_table, crc_entries, crc_rounds, crc_round,
}
use gps_device_virtual_farm.Gt06.Crc.Laws.{crc_bits, crc16itu-bitwise, crc16itu-corrupted}
use gps_device_virtual_farm.Gt06.Bcd.{
  is_imei, encode_imei_bcd, decode_imei_bcd, decode_imei_bcd-encode_imei_bcd, encode_imei_bcd-some,
}
use gps_device_virtual_farm.Gt06.Decoder.{Frame, FrameDecoder, new_decoder, feed, max_rx_buffer}
use gps_device_virtual_farm.Gt06.Decoder.Feed.{feed_all, feed_all-flatten, feed-bounded}
use gps_device_virtual_farm.Gt06.Decoder.Sound.{IsGenuine, feed-IsGenuine}
use gps_device_virtual_farm.Gt06.Frame.{
  frame_head, frame_bytes, build_frame, build_login, build_command_response, parse_server_command,
}
use gps_device_virtual_farm.Gt06.Frame.Stream.{
  build_frames, seen, feed-build_frames, feed_all-build_frames,
}
use gps_device_virtual_farm.Gt06.Frame.Command.{
  feed-build_login, build_command_response-some, parse_server_command_lem,
}
use gps_device_virtual_farm.Gt06.Location.{
  course_status, wire_coordinate, course_status_fields, wire_coordinate_error,
}

-- A heartbeat, and an acknowledgement of a login.
abbrev packets : List (List ℕ × ℕ)
packets = (19 ∷ 6 ∷ 4 ∷ 4 ∷ 0 ∷ 1 ∷ [], 7) ∷ (1 ∷ [], 65537) ∷ []

abbrev heartbeat_bytes : List ℕ
heartbeat_bytes = 120 ∷ 120 ∷ 10 ∷ 19 ∷ 6 ∷ 4 ∷ 4 ∷ 0 ∷ 1 ∷ 0 ∷ 7 ∷ 207 ∷ 109 ∷ 13 ∷ 10 ∷ []

abbrev ack_bytes : List ℕ
ack_bytes = 120 ∷ 120 ∷ 5 ∷ 1 ∷ 0 ∷ 1 ∷ 217 ∷ 220 ∷ 13 ∷ 10 ∷ []

-- The two frames, cut inside the first one.
abbrev chunks : List (List ℕ)
chunks =
    (120 ∷ 120 ∷ 10 ∷ 19 ∷ 6 ∷ 4 ∷ 4 ∷ 0 ∷ 1 ∷ [])
    ∷ (0 ∷ 7 ∷ 207 ∷ 109 ∷ 13 ∷ 10 ∷ 120 ∷ 120 ∷ 5 ∷ 1 ∷ 0 ∷ 1 ∷ 217 ∷ 220 ∷ 13 ∷ 10 ∷ [])
    ∷ []

packets_built : build_frames packets ≡ some (heartbeat_bytes ++ ack_bytes)
unfolding build_frames build_frame crc16itu crc_loop crc_step crc_table crc_entries crc_rounds
    crc_round
packets_built = refl

packets_bytes : All (λ p. AreBytes p.0) packets
packets_bytes = omega arith

feed-build_frames_example :
    feed new_decoder (heartbeat_bytes ++ ack_bytes) ≡ some (new_decoder, map seen packets)
feed-build_frames_example =
    feed-build_frames packets (heartbeat_bytes ++ ack_bytes) packets_bytes packets_built
      (omega arith)

feed_all-build_frames_example :
    (d : FrameDecoder) × (feed_all new_decoder chunks ≡ some (d, map seen packets))
unfolding flatten
feed_all-build_frames_example =
    feed_all-build_frames packets chunks packets_bytes packets_built (omega arith)

feed_all-flatten_example :
    (d₁ d₂ : FrameDecoder) × (fs : List Frame) × (feed_all new_decoder chunks ≡ some (d₁, fs))
    × (feed new_decoder (flatten chunks) ≡ some (d₂, fs))
unfolding flatten
feed_all-flatten_example = feed_all-flatten new_decoder chunks (omega arith)

-- The decoder after the first 9 bytes of the heartbeat.
abbrev waiting_decoder : FrameDecoder
waiting_decoder = record {
  buffer = 120 ∷ 120 ∷ 10 ∷ 19 ∷ 6 ∷ 4 ∷ 4 ∷ 0 ∷ 1 ∷ [];
  malformed_frames = 0;
}

fed_first :
    feed new_decoder (120 ∷ 120 ∷ 10 ∷ 19 ∷ 6 ∷ 4 ∷ 4 ∷ 0 ∷ 1 ∷ []) ≡ some (waiting_decoder, [])
unfolding feed
fed_first = refl

fed_second :
    feed waiting_decoder (0 ∷ 7 ∷ 207 ∷ 109 ∷ 13 ∷ 10 ∷ [])
    ≡ some (new_decoder, seen (19 ∷ 6 ∷ 4 ∷ 4 ∷ 0 ∷ 1 ∷ [], 7) ∷ [])
unfolding feed frame_bytes frame_head crc16itu crc_loop crc_step crc_table crc_entries crc_rounds
    crc_round
fed_second = refl

feed-bounded_example :
    (d : FrameDecoder) × (fs : List Frame) × (feed waiting_decoder ack_bytes ≡ some (d, fs))
    × (length d.buffer ≤ max_rx_buffer)
feed-bounded_example = feed-bounded waiting_decoder ack_bytes (omega arith)

feed-IsGenuine_example : All IsGenuine (seen (19 ∷ 6 ∷ 4 ∷ 4 ∷ 0 ∷ 1 ∷ [], 7) ∷ [])
feed-IsGenuine_example =
    feed-IsGenuine waiting_decoder new_decoder (0 ∷ 7 ∷ 207 ∷ 109 ∷ 13 ∷ 10 ∷ [])
      (seen (19 ∷ 6 ∷ 4 ∷ 4 ∷ 0 ∷ 1 ∷ [], 7) ∷ []) (omega arith) fed_second

crc16itu-bitwise_example :
    crc16itu ack_bytes 2 6 ≡ bit_xor (crc_bits 0xffff (subarray ack_bytes 2 6)) 0xffff
crc16itu-bitwise_example = crc16itu-bitwise ack_bytes 2 6 (omega arith) (omega arith) (omega arith)

crc16itu-corrupted_example : crc16itu (5 ∷ 1 ∷ 0 ∷ []) 0 3 ≢ crc16itu (5 ∷ 2 ∷ 0 ∷ []) 0 3
crc16itu-corrupted_example =
    crc16itu-corrupted (5 ∷ []) (0 ∷ []) 1 2 (omega arith) (omega arith) (omega arith) (omega arith)
      (omega arith)

abbrev imei : List ℕ
imei = 51 ∷ 53 ∷ 57 ∷ 51 ∷ 51 ∷ 57 ∷ 48 ∷ 55 ∷ 51 ∷ 48 ∷ 48 ∷ 48 ∷ 48 ∷ 48 ∷ 48 ∷ []

imei_valid : is_imei imei ≡ true
unfolding is_imei
imei_valid = refl

decode_imei_bcd-encode_imei_bcd_example :
    (bcd : List ℕ) × (encode_imei_bcd imei ≡ some bcd)
    × (length bcd ≡ 8)
    × AreBytes bcd
    × (decode_imei_bcd bcd ≡ some imei)
decode_imei_bcd-encode_imei_bcd_example = decode_imei_bcd-encode_imei_bcd imei imei_valid

-- "3A"
abbrev no_imei : List ℕ
no_imei = 51 ∷ 65 ∷ []

encode_imei_bcd-some_example :
    ((bcd : List ℕ) × (encode_imei_bcd no_imei ≡ some bcd))
    ↔ ((length no_imei ≡ 15) × All (λ c. (48 ≤ c) × (c ≤ 57)) no_imei)
encode_imei_bcd-some_example = encode_imei_bcd-some no_imei

feed-build_login_example :
    (bytes : List ℕ) × (f : Frame) × (build_login imei 1 ≡ some bytes)
    × (feed new_decoder bytes ≡ some (new_decoder, f ∷ []))
    × (f.protocol ≡ 1)
    × (f.serial ≡ 1 % 65536)
    × (decode_imei_bcd (subarray f.payload 1 9) ≡ some imei)
feed-build_login_example = feed-build_login imei 1 imei_valid

build_command_response-some_example :
    (bytes : List ℕ) × (build_command_response 9 4660 (79 ∷ 75 ∷ []) ≡ some bytes)
    × (length bytes ≤ 197)
build_command_response-some_example = build_command_response-some 9 4660 (79 ∷ 75 ∷ [])

-- A frame that asks for the status, with two bytes of a language code after the command.
abbrev status_frame : Frame
status_frame = record {
  protocol = 0x80;
  serial = 3;
  payload =
      0x80 ∷ (uint32_be 7 ++ (uint32_be 4660 ++ 83 ∷ 84 ∷ 65 ∷ 84 ∷ 85 ∷ 83 ∷ 35 ∷ 0 ∷ 2 ∷ []));
  raw = [];
  long_header = false;
}

parse_server_command_lem_example :
    parse_server_command status_frame
    ≡ some (record { server_flag = 4660; command = 83 ∷ 84 ∷ 65 ∷ 84 ∷ 85 ∷ 83 ∷ 35 ∷ [] })
parse_server_command_lem_example =
    parse_server_command_lem status_frame 4660 (83 ∷ 84 ∷ 65 ∷ 84 ∷ 85 ∷ 83 ∷ 35 ∷ []) (0 ∷ 2 ∷ [])
      refl refl (omega arith) (omega arith) (omega arith)

course_status_fields_example :
    (course_status 359 true false true % 1024 ≡ 359 % 1024)
    × (course_status 359 true false true / 1024 % 2 ≡ (if not false then 1 else 0))
    × (course_status 359 true false true / 2048 % 2 ≡ (if true then 1 else 0))
    × (course_status 359 true false true / 4096 % 2 ≡ (if true then 1 else 0))
    × (course_status 359 true false true / 8192 ≡ 1)
course_status_fields_example = course_status_fields 359 true false true

wire_coordinate_error_example :
    (wire_coordinate 28_613_900 < 2 ^ 32)
    × (wire_coordinate 28_613_900 * 10 ≤ 28_613_900 * 18 + 5)
    × (28_613_900 * 18 ≤ wire_coordinate 28_613_900 * 10 + 5)
wire_coordinate_error_example = wire_coordinate_error 28_613_900 (omega arith)
