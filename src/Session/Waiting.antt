-- ===== src/Session/Waiting.antt =====
-- src/simulator/device-session.js: a session that is due and whose packets can be built leaves an
-- entry of the scheduler's heap that makes it due again.
use mathlib.Core.List.{Mem, mem-cons}
use mathlib.Core.List.Perm
use mathlib.Core.Logic.Or
use mathlib.Core.Path.{subst}
use gps_device_virtual_farm.Prelude.{
  holds_if, holds_else, ℕ, ◌+◌, ◌≤◌, ◌<◌, ◌≡◌, refl, min, Bool, true, false, not, ◌||◌, Option,
  none, some, some_injective, sym, List, ltb, leb, if◌then◌else◌, arith, length,
}
use gps_device_virtual_farm.Gt06.Decoder.{new_decoder}
use gps_device_virtual_farm.Gt06.Frame.{build_login, build_heartbeat}
use gps_device_virtual_farm.Gt06.Location.{Timestamp, Point, build_location}
use gps_device_virtual_farm.Gt06.Bcd.{is_imei}
use gps_device_virtual_farm.Gt06.Frame.Built.{
  build_login-some, build_heartbeat-some, build_location-some,
}
use gps_device_virtual_farm.MinHeap.Array.{IsHeap}
use gps_device_virtual_farm.MinHeap.Queue.{push-IsHeap}
use gps_device_virtual_farm.Farm.{
  SessionState, pending, connecting, login_sent, online, backoff, stopped, Entry, entry_rank,
  no_entry, PacketType, count_packet, login, heartbeat, location, command_response, same_state,
  record_error, schedule_entry, set_session_state, record_socket_down, record_packet,
  record_reconnect,
}
use gps_device_virtual_farm.Session.{
  Session, Ctx, reconnect_delay, commit_queued_point, transport_unavailable, RouteCall, WriteResult,
  accepted, queued, failed,
}
use gps_device_virtual_farm.Session.Handlers.{
  schedule, mark_socket_disconnected, destroy_socket, set_state, call_road, retry_later,
  begin_reconnect, take_serial, write_packet, write_result, packet_written, next_write, rest_writes,
  cannot_write, write_login, send_login, connect, write_heartbeat, send_heartbeat, take_point,
  write_location, locate, send_location, send_online_packets,
}
use gps_device_virtual_farm.Session.Events.{due, handle_due}

-- The entry that makes the session due: one of any other version is out of date.
abbrev pub live_entry : Session → Entry
live_entry s = record { at = s.next_action_at; version = s.schedule_version; index = s.index }

-- No builder throws: the IMEI fits a login packet, and there is a point that fits a location packet.
abbrev CanSend : List ℕ → Option Point → Type 0
CanSend imei point =
    ((serial : ℕ) → (packet : List ℕ) × (build_login imei serial ≡ some packet))
    × ((p : Point) × (point ≡ some p)
        × ((serial : ℕ) → (packet : List ℕ) × (build_location serial p ≡ some packet)))

-- The session takes part in a farm that runs, and its version is at least `v`.
abbrev pub Active : ℕ → Ctx → Type 0
Active v c =
    (c.farm.running ≡ true)
    × (c.session.disposed ≡ false)
    × (same_state c.session.state stopped ≡ false)
    × IsHeap entry_rank no_entry c.farm.heap
    × (v ≤ c.session.schedule_version)
    × CanSend c.session.imei c.net.point

-- It has been scheduled since its version was `v`, and the entry waits in the heap.
abbrev pub Waiting : ℕ → Ctx → Type 0
Waiting v c =
    IsHeap entry_rank no_entry c.farm.heap
    × (v < c.session.schedule_version)
    × Mem (live_entry c.session) c.farm.heap

module _ (v : ℕ) where
  schedule-Waiting : (at : ℕ) (c : Ctx) → Active v c → Waiting v (schedule at c)
  unfolding schedule schedule_entry
  schedule-Waiting at c (running, present, going, heap, low, able) =
      let entry : Entry = record {
        at = at;
        version = c.session.schedule_version + 1;
        index = c.session.index;
      } in
      let (heap', perm) = push-IsHeap entry_rank no_entry c.farm.heap entry heap in
      rw (running, present) (heap', omega arith, (Perm.mem_iff perm).1 (mem-cons.1 (Or.inl refl)))

  destroy-Active : (c : Ctx) → Active v c → Active v (destroy_socket c)
  unfolding destroy_socket mark_socket_disconnected record_socket_down
  destroy-Active c h = holds_if (Active v) (not c.session.socket_connected) h h

  set_state-Active :
      (next : SessionState) (c : Ctx)
      → same_state next stopped ≡ false
      → Active v c
      → Active v (set_state next c)
  unfolding set_state set_session_state
  set_state-Active next c apart (running, present, going, heap, low, able) =
      holds_if (Active v) (same_state c.session.state next)
        (running, present, going, heap, low, able) (running, present, apart, heap, low, able)

  call_road-Active : (call : RouteCall) (c : Ctx) → Active v c → Active v (call_road call c)
  unfolding call_road
  call_road-Active call c h = holds_if (Active v) c.session.has_road_model h h

  begin_reconnect-Waiting : (now : ℕ) (c : Ctx) → Active v c → Waiting v (begin_reconnect now c)
  unfolding begin_reconnect retry_later record_reconnect
  begin_reconnect-Waiting now c (running, present, going, heap, low, able) =
      let c0 = destroy_socket (call_road transport_unavailable c) in
      let c1 = set_state backoff c0 in
      let h1 = set_state-Active backoff c0 refl (
        destroy-Active (call_road transport_unavailable c)
          (call_road-Active transport_unavailable c (running, present, going, heap, low, able))) in
      let s = c1.session in
      holds_else (Waiting v)
        ((c.session.disposed || not c.farm.running) || same_state c.session.state stopped) c
        (ground (arith, running, present, going))
        (schedule-Waiting (now + reconnect_delay s.config s.hash s.reconnect_attempt)
          (record c1 {
            session = record s { reconnect_attempt = s.reconnect_attempt + 1 };
            farm = record_reconnect c1.farm;
          })
          h1)

  count_packet-Active :
      (type : PacketType) (bytes : ℕ) (c : Ctx)
      → Active v c
      → Active v (record c { farm = record_packet type bytes c.farm })
  unfolding record_packet count_packet
  count_packet-Active login bytes c h = h
  count_packet-Active heartbeat bytes c h = h
  count_packet-Active location bytes c h = h
  count_packet-Active command_response bytes c h = h

  -- A packet that is not written leaves the session waiting to connect again.
  abbrev Wrote : Bool × Ctx → Type 0
  Wrote (true, c) = Active v c
  Wrote (false, c) = Waiting v c

  write_result-Wrote :
      (result : WriteResult) (type : PacketType) (packet : List ℕ) (c : Ctx)
      → Active v c
      → Wrote (write_result result type packet c)
  unfolding write_result packet_written record_error
  write_result-Wrote accepted type packet c h = count_packet-Active type (length packet) c h
  write_result-Wrote queued type packet c h = count_packet-Active type (length packet) c h
  write_result-Wrote failed type packet c h =
      begin_reconnect-Waiting c.net.clock (record c { farm = record_error c.farm }) h

  write_packet-Wrote :
      (type : PacketType) (packet : List ℕ) (c : Ctx)
      → Active v c
      → Wrote (write_packet type packet c)
  unfolding write_packet rest_writes
  write_packet-Wrote type packet c h =
      holds_if Wrote (cannot_write c.session) (begin_reconnect-Waiting c.net.clock c h)
        (write_result-Wrote (next_write c.net) type packet (record c { net = rest_writes c.net }) h)

  take_serial-Active : (c : Ctx) → Active v c → Active v (take_serial c)
  unfolding take_serial
  take_serial-Active c h = h

  scheduled_if_written :
      (at : ℕ) (r : Bool × Ctx) → Wrote r → Waiting v (if r.0 then schedule at r.1 else r.1)
  scheduled_if_written at (true, c) h = schedule-Waiting at c h
  scheduled_if_written at (false, c) h = h

  write_login-Waiting :
      (now : ℕ) (packet : Option (List ℕ)) (c : Ctx)
      → ((bytes : List ℕ) × (packet ≡ some bytes))
      → Active v c
      → Waiting v (write_login now packet c)
  unfolding write_login
  write_login-Waiting now none c (bytes, e) h = absurd (ground (arith, e))
  write_login-Waiting now (some packet) c can h =
      scheduled_if_written (now + c.session.config.login_ack_timeout_ms)
        (write_packet login packet c) (write_packet-Wrote login packet c h)

  send_login-Waiting : (now : ℕ) (c : Ctx) → Active v c → Waiting v (send_login now c)
  unfolding send_login
  send_login-Waiting now c h =
      let c1 = set_state login_sent c in
      let c2 = record c1 {
        session = record (c1.session) {
          login_attempts = c1.session.login_attempts + 1;
          last_login_serial = c.session.serial;
        };
      } in
      let h2 = set_state-Active login_sent c refl h in
      holds_if (Waiting v) (not c.session.socket_connected) (begin_reconnect-Waiting now c h) (
        write_login-Waiting now (build_login c.session.imei c.session.serial) (take_serial c2)
          (h.5.0 c.session.serial) (take_serial-Active c2 h2))

  connect-Waiting : (now : ℕ) (c : Ctx) → Active v c → Waiting v (connect now c)
  unfolding connect record_error
  connect-Waiting now c h =
      let c1 = destroy_socket c in
      let c2 = record c1 {
        session = record (c1.session) {
          decoder = new_decoder;
          login_attempts = 0;
          backpressured = false;
        };
      } in
      let h3 = set_state-Active connecting c2 refl (destroy-Active c h) in
      let c3 = set_state connecting c2 in
      let c4 = record c3 {
        session = record (c3.session) { socket_token = c3.session.socket_token + 1 };
      } in
      holds_if (Waiting v) c4.net.connect_throws
        (begin_reconnect-Waiting now (record c4 { farm = record_error c4.farm }) h3)
        (schedule-Waiting (now + c4.session.config.connect_timeout_ms)
          (record c4 { session = record (c4.session) { socket = some false } }) h3)

  -- What a method returns for a packet that it has written, or for one that it has not.
  written_then :
      (f : Ctx → Ctx) (r : Bool × Ctx)
      → ((c : Ctx) → Active v c → Active v (f c))
      → Wrote r
      → Wrote (if r.0 then (true, f r.1) else (false, r.1))
  written_then f (true, c) keeps h = keeps c h
  written_then f (false, c) keeps h = h

  write_heartbeat-Wrote :
      (now : ℕ) (packet : Option (List ℕ)) (c : Ctx)
      → ((bytes : List ℕ) × (packet ≡ some bytes))
      → Active v c
      → Wrote (write_heartbeat now packet c)
  unfolding write_heartbeat
  write_heartbeat-Wrote now none c (bytes, e) h = absurd (ground (arith, e))
  write_heartbeat-Wrote now (some packet) c can h =
      written_then
        (λ d. record d {
          session = record (d.session) {
            next_heartbeat_at = now + d.session.config.heartbeat_interval_ms;
          };
        })
        (write_packet heartbeat packet c) (λ d k. k) (write_packet-Wrote heartbeat packet c h)

  send_heartbeat-Wrote : (now : ℕ) (c : Ctx) → Active v c → Wrote (send_heartbeat now c)
  unfolding send_heartbeat
  send_heartbeat-Wrote now c h = holds_if Wrote (not (leb c.session.next_heartbeat_at now)) h (
      write_heartbeat-Wrote now (build_heartbeat c.session.serial c.session.moving) (take_serial c)
        (build_heartbeat-some c.session.serial c.session.moving) (take_serial-Active c h))

  -- The next location is due after the interval for the device's mode.
  abbrev located : ℕ → Ctx → Ctx
  located now d =
      let e = call_road commit_queued_point d in
      let interval =
        if e.session.moving
        then e.session.config.moving_interval_ms
        else e.session.config.parked_interval_ms in
      record e { session = record (e.session) { next_location_at = now + interval } }

  write_location-Wrote :
      (now : ℕ) (packet : Option (List ℕ)) (c : Ctx)
      → ((bytes : List ℕ) × (packet ≡ some bytes))
      → Active v c
      → Wrote (write_location now packet c)
  unfolding write_location
  write_location-Wrote now none c (bytes, e) h = absurd (ground (arith, e))
  write_location-Wrote now (some packet) c can h =
      written_then (located now) (write_packet location packet c)
        (call_road-Active commit_queued_point) (write_packet-Wrote location packet c h)

  locate-Wrote :
      (now : ℕ) (point : Option Point) (c : Ctx)
      → CanSend c.session.imei point
      → Active v c
      → Wrote (locate now point c)
  unfolding locate take_point
  locate-Wrote now none c (_, (p, e, can)) h = absurd (ground (arith, e))
  locate-Wrote now (some point) c (_, (p, e, can)) h =
      write_location-Wrote now (build_location c.session.serial point) (take_serial (take_point c))
        (subst (λ q. (packet : List ℕ) × (build_location c.session.serial q ≡ some packet))
          (sym (some_injective e)) (can c.session.serial))
        (take_serial-Active (take_point c) h)

  send_location-Wrote : (now : ℕ) (c : Ctx) → Active v c → Wrote (send_location now c)
  unfolding send_location
  send_location-Wrote now c h =
      holds_if Wrote (not (leb c.session.next_location_at now)) h
        (locate-Wrote now c.net.point c h.5 h)

  schedule_next :
      (r : Bool × Ctx)
      → Wrote r
      → Waiting v (
          if not r.0
          then r.1
          else schedule (min r.1.session.next_heartbeat_at r.1.session.next_location_at) r.1)
  schedule_next (true, c) h =
      schedule-Waiting (min c.session.next_heartbeat_at c.session.next_location_at) c h
  schedule_next (false, c) h = h

  location_next :
      (now : ℕ) (r : Bool × Ctx)
      → Wrote r
      → Waiting v (
          if not r.0
          then r.1
          else if not (send_location now r.1).0
          then (send_location now r.1).1
          else schedule
              (min
                (send_location now r.1).1.session.next_heartbeat_at
                (send_location now r.1).1.session.next_location_at)
              (send_location now r.1).1)
  location_next now (true, c) h = schedule_next (send_location now c) (send_location-Wrote now c h)
  location_next now (false, c) h = h

  send_online_packets-Waiting :
      (now : ℕ) (c : Ctx) → Active v c → Waiting v (send_online_packets now c)
  unfolding send_online_packets
  send_online_packets-Waiting now c h =
      holds_if (Waiting v) c.session.backpressured (schedule-Waiting (now + 100) c h)
        (location_next now (send_heartbeat now c) (send_heartbeat-Wrote now c h))

  due-Waiting :
      (state : SessionState) (now : ℕ) (c : Ctx)
      → same_state state stopped ≡ false
      → Active v c
      → Waiting v (due state now c)
  unfolding due
  due-Waiting pending now c going h = connect-Waiting now c h
  due-Waiting backoff now c going h = connect-Waiting now c h
  due-Waiting connecting now c going h = begin_reconnect-Waiting now c h
  due-Waiting login_sent now c going h =
      holds_if (Waiting v) (ltb c.session.login_attempts c.session.config.max_login_attempts)
        (send_login-Waiting now c h) (begin_reconnect-Waiting now c h)
  due-Waiting online now c going h = send_online_packets-Waiting now c h
  due-Waiting stopped now c going h = absurd (ground arith)

-- In a farm that runs and whose heap is a heap, let a session that is neither disposed nor stopped be
-- due, with an IMEI of 15 digits, and let its movement model give a point with a valid time and with
-- coordinates of at most 180 degrees, so that no packet makes its builder throw. Whatever the session's
-- state and whatever its sockets do, `handleDue` leaves the session with a later
-- version, and leaves a heap that holds the entry of that version, at the time that the session notes.
pub handle_due-Waiting :
    (now : ℕ) (c : Ctx) (p : Point) (t : Timestamp)
    → c.farm.running ≡ true
    → c.session.disposed ≡ false
    → same_state c.session.state stopped ≡ false
    → IsHeap entry_rank no_entry c.farm.heap
    → is_imei c.session.imei ≡ true
    → c.net.point ≡ some p
    → p.time ≡ some t
    → p.latitude_micro ≤ 180_000_000
    → p.longitude_micro ≤ 180_000_000
    → Waiting c.session.schedule_version (handle_due now c)
unfolding handle_due
handle_due-Waiting now c p t running present going heap imei given time north east =
    let able : CanSend c.session.imei c.net.point = (
      λ serial. build_login-some c.session.imei serial imei,
      (p, given, λ serial. build_location-some serial p t time north east),
    ) in
    holds_else (Waiting c.session.schedule_version) (c.session.disposed || not c.farm.running) c
      (ground (arith, running, present))
      (due-Waiting c.session.schedule_version c.session.state now c going
        (running, present, going, heap, omega arith, able))
