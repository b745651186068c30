-- ===== src/Session/Accounts.antt =====
-- What a session owes the farm: the counts of states and of connected sockets. This is an
-- invariant of src/simulator/device-session.js.
pub mod Methods
pub mod Steps
use gps_device_virtual_farm.Prelude.{
  holds_if, ℕ, suc, ◌+◌, ◌-◌, ◌≤◌, ◌<◌, ◌%◌, ◌^◌, ◌≡◌, refl, sym, ap, max, Bool, true, false, not,
  ◌||◌, ◌&&◌, Option, none, some, List, [], ◌∷◌, inl, inr, arith, ltb, leb, ◌==◌, if◌then◌else◌,
  Bool-cases, bit_and, length,
}
use gps_device_virtual_farm.Prelude.Bits.{bit_and_mask}
use gps_device_virtual_farm.Gt06.Decoder.{Frame, FrameDecoder}
use gps_device_virtual_farm.Farm.{
  SessionState, Farm, PacketType, login, heartbeat, location, command_response, record_error,
  record_reconnect, count_of, same_state, record_socket_down, set_session_state, schedule_entry,
  record_packet, count_packet, stopped, backoff,
}
use gps_device_virtual_farm.Farm.Counts.{count_of-set_session_state, same_state_refl, same_state-eq}
use gps_device_virtual_farm.Session.{
  Session, Ctx, next_serial, reconnect_delay, transport_unavailable, RouteCall, WriteResult,
  accepted, queued, failed,
}
use gps_device_virtual_farm.Session.Handlers.{
  schedule, mark_socket_disconnected, destroy_socket, set_state, call_road, retry_later,
  begin_reconnect, take_serial, write_result, write_packet, packet_written, next_write, rest_writes,
  cannot_write,
}

-- With the `others` and `others_tcp` that the rest of the fleet accounts for: the session is counted
-- once, in the state it is in, its socket is counted exactly when it is connected, and its next serial
-- number is one of 1, …, 65535.
abbrev pub Accounts : (SessionState → ℕ) → ℕ → Ctx → Type 0
Accounts others others_tcp c =
    ((t : SessionState)
      → count_of c.farm.state_counts t ≡ others t + (if same_state c.session.state t then 1 else 0))
    × (c.farm.stats.tcp_connected ≡ others_tcp + (if c.session.socket_connected then 1 else 0))
    × (1 ≤ c.session.serial)
    × (c.session.serial < 65536)

pub next_serial_range : (n : ℕ) → n < 65536 → (1 ≤ next_serial n) × (next_serial n < 65536)
unfolding next_serial
next_serial_range n h = rw (bit_and_mask 16 (n + 1)) ground arith

module _ (others : SessionState → ℕ) (others_tcp : ℕ) where
  -- The invariant reads these of the farm, and these of the session.
  abbrev Fits : SessionState → Bool → ℕ → Farm → Type 0
  Fits state connected serial f =
      ((t : SessionState)
        → count_of f.state_counts t ≡ others t + (if same_state state t then 1 else 0))
      × (f.stats.tcp_connected ≡ others_tcp + (if connected then 1 else 0))
      × (1 ≤ serial)
      × (serial < 65536)

  schedule_entry-Fits :
      (index at version : ℕ) (f : Farm) (state : SessionState) (connected : Bool) (serial : ℕ)
      → Fits state connected serial f
      → Fits state connected serial (schedule_entry index at version f)
  unfolding schedule_entry
  schedule_entry-Fits index at version f state connected serial h =
      holds_if (Fits state connected serial) f.running h h

  pub schedule-Accounts :
      (at : ℕ) (c : Ctx) → Accounts others others_tcp c → Accounts others others_tcp (schedule at c)
  unfolding schedule
  schedule-Accounts at c h =
      holds_if (Accounts others others_tcp) (c.session.disposed || not c.farm.running) h (
        schedule_entry-Fits c.session.index at (c.session.schedule_version + 1) c.farm
          c.session.state c.session.socket_connected c.session.serial h)

  pub mark-Accounts :
      (c : Ctx)
      → Accounts others others_tcp c
      → Accounts others others_tcp (mark_socket_disconnected c)
  unfolding mark_socket_disconnected record_socket_down
  mark-Accounts c (states, tcp, low, high) = elim (Bool-cases c.session.socket_connected) [
    | inl on ↦ rw on (states, ground (arith, tcp, on), low, high)
    | inr off ↦ rw off (states, ground (arith, tcp, off), low, high)
  ]

  pub destroy-Accounts :
      (c : Ctx) → Accounts others others_tcp c → Accounts others others_tcp (destroy_socket c)
  unfolding destroy_socket
  destroy-Accounts c h =
      mark-Accounts
        (record c {
          session = record (c.session) { socket = none; socket_token = c.session.socket_token + 1 };
        })
        h

  pub set_state-Accounts :
      (next : SessionState) (c : Ctx)
      → Accounts others others_tcp c
      → Accounts others others_tcp (set_state next c)
  unfolding set_state set_session_state
  set_state-Accounts next c (states, tcp, low, high) =
      let moved : (apart : same_state c.session.state next ≡ false) (t : SessionState)
          → count_of (set_session_state c.session.state next c.farm).state_counts t
            ≡ others t + (if same_state next t then 1 else 0) =
        λ apart t. ground (
          arith,
          count_of-set_session_state c.session.state next c.farm t apart,
          states t,
          apart,
          same_state-eq c.session.state t,
          same_state-eq next t,
        ) in
      elim (Bool-cases (same_state c.session.state next)) [
        | inl same ↦ rw same (states, tcp, low, high)
        | inr apart ↦ rw apart (moved apart, tcp, low, high)
      ]

  pub call_road-Accounts :
      (call : RouteCall) (c : Ctx)
      → Accounts others others_tcp c
      → Accounts others others_tcp (call_road call c)
  unfolding call_road
  call_road-Accounts call c h = holds_if (Accounts others others_tcp) c.session.has_road_model h h

  pub begin_reconnect-Accounts :
      (now : ℕ) (c : Ctx)
      → Accounts others others_tcp c
      → Accounts others others_tcp (begin_reconnect now c)
  unfolding begin_reconnect retry_later record_reconnect
  begin_reconnect-Accounts now c h =
      let c1 = set_state backoff (destroy_socket (call_road transport_unavailable c)) in
      let h1 = set_state-Accounts backoff (destroy_socket (call_road transport_unavailable c)) (
        destroy-Accounts (call_road transport_unavailable c)
          (call_road-Accounts transport_unavailable c h)) in
      let s = c1.session in
      holds_if (Accounts others others_tcp)
        ((c.session.disposed || not c.farm.running) || same_state c.session.state stopped) h
        (schedule-Accounts (now + reconnect_delay s.config s.hash s.reconnect_attempt)
          (record c1 {
            session = record s { reconnect_attempt = s.reconnect_attempt + 1 };
            farm = record_reconnect c1.farm;
          })
          h1)

  pub take_serial-Accounts :
      (c : Ctx) → Accounts others others_tcp c → Accounts others others_tcp (take_serial c)
  unfolding take_serial
  take_serial-Accounts c (states, tcp, low, high) =
      let (low', high') = next_serial_range c.session.serial high in (states, tcp, low', high')

  count_packet-Accounts :
      (type : PacketType) (bytes : ℕ) (f : Farm) (state : SessionState) (connected : Bool)
      (serial : ℕ)
      → Fits state connected serial f
      → Fits state connected serial (record_packet type bytes f)
  unfolding record_packet count_packet
  count_packet-Accounts login bytes f state connected serial h = h
  count_packet-Accounts heartbeat bytes f state connected serial h = h
  count_packet-Accounts location bytes f state connected serial h = h
  count_packet-Accounts command_response bytes f state connected serial h = h

  packet_written-Accounts :
      (type : PacketType) (packet : List ℕ) (full : Bool) (c : Ctx)
      → Accounts others others_tcp c
      → Accounts others others_tcp (packet_written type packet full c)
  unfolding packet_written
  packet_written-Accounts type packet full c h =
      count_packet-Accounts type (length packet) c.farm c.session.state c.session.socket_connected
        c.session.serial h

  write_result-Accounts :
      (result : WriteResult) (type : PacketType) (packet : List ℕ) (c : Ctx)
      → Accounts others others_tcp c
      → Accounts others others_tcp (write_result result type packet c).1
  unfolding write_result record_error
  write_result-Accounts accepted type packet c h = packet_written-Accounts type packet false c h
  write_result-Accounts queued type packet c h = packet_written-Accounts type packet true c h
  write_result-Accounts failed type packet c h =
      begin_reconnect-Accounts c.net.clock (record c { farm = record_error c.farm }) h

  pub write_packet-Accounts :
      (type : PacketType) (packet : List ℕ) (c : Ctx)
      → Accounts others others_tcp c
      → Accounts others others_tcp (write_packet type packet c).1
  unfolding write_packet
  write_packet-Accounts type packet c h =
      holds_if (λ (r : Bool × Ctx). Accounts others others_tcp r.1) (cannot_write c.session)
        (begin_reconnect-Accounts c.net.clock c h)
        (write_result-Accounts (next_write c.net) type packet (record c { net = rest_writes c.net })
          h)
