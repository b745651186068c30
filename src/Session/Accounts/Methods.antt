-- ===== src/Session/Accounts/Methods.antt =====
-- The methods of src/simulator/device-session.js keep the farm's counts right.
use gps_device_virtual_farm.Prelude.{
  holds_if, ℕ, ◌+◌, min, Bool, false, not, Option, none, some, List, leb,
}
use gps_device_virtual_farm.Gt06.Decoder.{new_decoder}
use gps_device_virtual_farm.Gt06.Frame.{build_login, build_heartbeat}
use gps_device_virtual_farm.Gt06.Location.{Point, build_location}
use gps_device_virtual_farm.Farm.{
  SessionState, connecting, login_sent, login, heartbeat, location, record_error,
}
use gps_device_virtual_farm.Session.{Ctx, commit_queued_point}
use gps_device_virtual_farm.Session.Handlers.{
  destroy_socket, set_state, take_serial, write_packet, throw, write_login, send_login, connect,
  write_heartbeat, send_heartbeat, take_point, write_location, locate, send_location,
  send_online_packets,
}
use gps_device_virtual_farm.Session.Accounts.{
  Accounts, schedule-Accounts, destroy-Accounts, set_state-Accounts, call_road-Accounts,
  begin_reconnect-Accounts, take_serial-Accounts, write_packet-Accounts,
}

module _ (others : SessionState → ℕ) (others_tcp : ℕ) where
  abbrev pub Kept : Ctx → Type 0
  Kept c = Accounts others others_tcp c

  pub throw-Accounts : (c : Ctx) → Kept c → Kept (throw c)
  unfolding throw
  throw-Accounts c h = h

  write_login-Accounts :
      (now : ℕ) (packet : Option (List ℕ)) (c : Ctx) → Kept c → Kept (write_login now packet c)
  unfolding write_login
  write_login-Accounts now none c h = throw-Accounts c h
  write_login-Accounts now (some packet) c h =
      let h1 = write_packet-Accounts others others_tcp login packet c h in
      holds_if Kept (write_packet login packet c).0
        (schedule-Accounts others others_tcp (now + c.session.config.login_ack_timeout_ms)
          (write_packet login packet c).1 h1)
        h1

  pub send_login-Accounts : (now : ℕ) (c : Ctx) → Kept c → Kept (send_login now c)
  unfolding send_login
  send_login-Accounts now c h =
      let c1 = set_state login_sent c in
      let c2 = record c1 {
        session = record (c1.session) {
          login_attempts = c1.session.login_attempts + 1;
          last_login_serial = c.session.serial;
        };
      } in
      holds_if Kept (not c.session.socket_connected)
        (begin_reconnect-Accounts others others_tcp now c h)
        (write_login-Accounts now (build_login c.session.imei c.session.serial) (take_serial c2) (
          take_serial-Accounts others others_tcp c2
            (set_state-Accounts others others_tcp login_sent c h)))

  pub connect-Accounts : (now : ℕ) (c : Ctx) → Kept c → Kept (connect now c)
  unfolding connect record_error
  connect-Accounts now c h =
      let c1 = destroy_socket c in
      let c2 = record c1 {
        session = record (c1.session) {
          decoder = new_decoder;
          login_attempts = 0;
          backpressured = false;
        };
      } in
      let h3 =
        set_state-Accounts others others_tcp connecting c2
          (destroy-Accounts others others_tcp c h) in
      let c3 = set_state connecting c2 in
      let c4 = record c3 {
        session = record (c3.session) { socket_token = c3.session.socket_token + 1 };
      } in
      holds_if Kept c4.net.connect_throws
        (begin_reconnect-Accounts others others_tcp now (record c4 { farm = record_error c4.farm })
          h3)
        (schedule-Accounts others others_tcp (now + c4.session.config.connect_timeout_ms)
          (record c4 { session = record (c4.session) { socket = some false } }) h3)

  -- What the first half of a result is does not matter.
  abbrev KeptIn : Bool × Ctx → Type 0
  KeptIn r = Kept r.1

  write_heartbeat-Accounts :
      (now : ℕ) (packet : Option (List ℕ)) (c : Ctx)
      → Kept c
      → KeptIn (write_heartbeat now packet c)
  unfolding write_heartbeat
  write_heartbeat-Accounts now none c h = throw-Accounts c h
  write_heartbeat-Accounts now (some packet) c h =
      let h1 = write_packet-Accounts others others_tcp heartbeat packet c h in
      holds_if KeptIn (write_packet heartbeat packet c).0 h1 h1

  send_heartbeat-Accounts : (now : ℕ) (c : Ctx) → Kept c → KeptIn (send_heartbeat now c)
  unfolding send_heartbeat
  send_heartbeat-Accounts now c h = holds_if KeptIn (not (leb c.session.next_heartbeat_at now)) h (
      write_heartbeat-Accounts now (build_heartbeat c.session.serial c.session.moving)
        (take_serial c) (take_serial-Accounts others others_tcp c h))

  write_location-Accounts :
      (now : ℕ) (packet : Option (List ℕ)) (c : Ctx) → Kept c → KeptIn (write_location now packet c)
  unfolding write_location
  write_location-Accounts now none c h = throw-Accounts c h
  write_location-Accounts now (some packet) c h =
      let h1 = write_packet-Accounts others others_tcp location packet c h in
      holds_if KeptIn (write_packet location packet c).0
        (call_road-Accounts others others_tcp commit_queued_point (write_packet location packet c).1
          h1)
        h1

  locate-Accounts :
      (now : ℕ) (point : Option Point) (c : Ctx) → Kept c → KeptIn (locate now point c)
  unfolding locate take_point
  locate-Accounts now none c h = throw-Accounts (take_point c) h
  locate-Accounts now (some point) c h =
      write_location-Accounts now (build_location c.session.serial point)
        (take_serial (take_point c)) (take_serial-Accounts others others_tcp (take_point c) h)

  send_location-Accounts : (now : ℕ) (c : Ctx) → Kept c → KeptIn (send_location now c)
  unfolding send_location
  send_location-Accounts now c h =
      holds_if KeptIn (not (leb c.session.next_location_at now)) h
        (locate-Accounts now c.net.point c h)

  pub send_online_packets-Accounts : (now : ℕ) (c : Ctx) → Kept c → Kept (send_online_packets now c)
  unfolding send_online_packets
  send_online_packets-Accounts now c h =
      let (on, c1) = send_heartbeat now c in
      let h1 = send_heartbeat-Accounts now c h in
      let (done, c2) = send_location now c1 in
      let h2 = send_location-Accounts now c1 h1 in
      holds_if Kept c.session.backpressured (schedule-Accounts others others_tcp (now + 100) c h) (
        holds_if Kept (not on) h1 (
          holds_if Kept (not done) h2 (
            schedule-Accounts others others_tcp
              (min c2.session.next_heartbeat_at c2.session.next_location_at) c2 h2)))
