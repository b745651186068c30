-- ===== src/Gt06/Frame/Built.antt =====
-- src/simulator/gt06.js: the packets of a session that can always be built.
use gps_device_virtual_farm.Prelude.{
  ℕ, ◌^◌, ◌≤◌, ◌<◌, ap, ◌≡◌, ◌∙◌, Bool, true, some, List, [], ◌∷◌, ◌++◌, arith, length-append,
  bit_or, if◌then◌else◌,
}
use gps_device_virtual_farm.Gt06.Buffer.{uint16_be, uint32_be}
use gps_device_virtual_farm.Gt06.Bcd.{is_imei, decode_imei_bcd-encode_imei_bcd}
use gps_device_virtual_farm.Gt06.Frame.{frame_bytes, build_login, build_heartbeat}
use gps_device_virtual_farm.Gt06.Frame.Command.{build_frame-some, login_eq, write_uint32_be-some}
use gps_device_virtual_farm.Gt06.Location.{
  Timestamp, Point, wire_coordinate, location_payload, build_location_at, build_location,
  wire_coordinate_error,
}

pub build_login-some :
    (imei : List ℕ) (serial : ℕ)
    → is_imei imei ≡ true
    → (packet : List ℕ) × (build_login imei serial ≡ some packet)
build_login-some imei serial h =
    let (bcd, e, size, _, _) = decode_imei_bcd-encode_imei_bcd imei h in
    let payload = 0x01 ∷ (bcd ++ uint16_be 0x0001) in
    let sizes = length-append bcd (uint16_be 0x0001) in
    (
      frame_bytes payload serial,
      login_eq imei bcd serial e
          ∙ build_frame-some payload serial (omega arith) (omega (arith, sizes, size)),
    )

pub build_heartbeat-some :
    (serial : ℕ) (ignition : Bool)
    → (packet : List ℕ) × (build_heartbeat serial ignition ≡ some packet)
unfolding build_heartbeat
build_heartbeat-some serial ignition =
    let info = bit_or 0x04 (if ignition then 0x02 else 0x00) in
    let payload = 0x13 ∷ info ∷ 0x04 ∷ 0x04 ∷ 0x00 ∷ 0x01 ∷ [] in
    (frame_bytes payload serial, build_frame-some payload serial (omega arith) (omega arith))

location_at-some :
    (serial : ℕ) (p : Point) (t : Timestamp)
    → wire_coordinate p.latitude_micro < 2 ^ 32
    → wire_coordinate p.longitude_micro < 2 ^ 32
    → (packet : List ℕ) × (build_location_at serial p (some t) ≡ some packet)
unfolding location_payload build_location_at
location_at-some serial p t north east =
    let payload =
      location_payload t p (uint32_be (wire_coordinate p.latitude_micro))
        (uint32_be (wire_coordinate p.longitude_micro)) in
    (
      frame_bytes payload serial,
      rw
          (
            build_location_at,
            write_uint32_be-some (wire_coordinate p.latitude_micro) north,
            write_uint32_be-some (wire_coordinate p.longitude_micro) east,
          )
          (build_frame-some payload serial (omega arith) (omega arith)),
    )

pub build_location-some :
    (serial : ℕ) (p : Point) (t : Timestamp)
    → p.time ≡ some t
    → p.latitude_micro ≤ 180_000_000
    → p.longitude_micro ≤ 180_000_000
    → (packet : List ℕ) × (build_location serial p ≡ some packet)
unfolding build_location
build_location-some serial p t e north east =
    let (packet, made) =
      location_at-some serial p t (wire_coordinate_error p.latitude_micro north).0
        (wire_coordinate_error p.longitude_micro east).0 in
    (packet, ap (build_location_at serial p) e ∙ made)
