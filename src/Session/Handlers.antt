-- ===== src/Session/Handlers.antt =====
-- src/simulator/device-session.js: the methods that the handlers of events are made of. Each takes the
-- session, the farm and the world as they are, and returns them as it leaves them.
use gps_device_virtual_farm.Prelude.{
  ℕ, ◌+◌, min, Bool, true, false, not, ◌||◌, Option, none, some, List, [], ◌∷◌, ◌++◌, leb,
  if◌then◌else◌, length, drop,
}
use gps_device_virtual_farm.Gt06.Decoder.{new_decoder}
use gps_device_virtual_farm.Gt06.Frame.{build_login, build_heartbeat}
use gps_device_virtual_farm.Gt06.Location.{Point, build_location}
use gps_device_virtual_farm.Farm.{
  SessionState, connecting, login_sent, backoff, stopped, PacketType, login, same_state, heartbeat,
  location, schedule_entry, set_session_state, record_socket_down, record_packet, record_reconnect,
  record_error,
}
use gps_device_virtual_farm.Session.{
  RouteCall, transport_unavailable, propose_point, commit_queued_point, next_point, Session,
  WriteResult, accepted, queued, failed, Net, Ctx, next_serial, reconnect_delay,
}

-- `schedule(at)`
unfoldable pub schedule : ℕ → Ctx → Ctx
schedule at c =
    let s = c.session in
    let version = s.schedule_version + 1 in
    if s.disposed || not c.farm.running then c else record c {
      session = record s { next_action_at = at; schedule_version = version };
      farm = schedule_entry s.index at version c.farm;
    }

-- `#markSocketDisconnected()`
unfoldable pub mark_socket_disconnected : Ctx → Ctx
mark_socket_disconnected c = if not c.session.socket_connected then c else record c {
  session = record (c.session) { socket_connected = false };
  farm = record_socket_down c.farm;
}

-- `#destroySocket()`. The socket that is let go has no listeners any more.
unfoldable pub destroy_socket : Ctx → Ctx
destroy_socket c = mark_socket_disconnected (record c {
  session = record (c.session) { socket = none; socket_token = c.session.socket_token + 1 };
})

-- `#setState(nextState)`
unfoldable pub set_state : SessionState → Ctx → Ctx
set_state next c =
    let previous = c.session.state in
    if same_state previous next then c else record c {
      session = record (c.session) { state = next };
      farm = set_session_state previous next c.farm;
    }

-- A call of the movement model that only a road model answers (`?.`).
unfoldable pub call_road : RouteCall → Ctx → Ctx
call_road call c =
    if c.session.has_road_model
    then record c { session = record (c.session) { route = c.session.route ++ call ∷ [] } }
    else c

-- `#beginReconnect(now, reason)`, from the delay on
unfoldable pub retry_later : ℕ → Ctx → Ctx
retry_later now c =
    let s = c.session in
    schedule (now + reconnect_delay s.config s.hash s.reconnect_attempt) (record c {
      session = record s { reconnect_attempt = s.reconnect_attempt + 1 };
      farm = record_reconnect c.farm;
    })

-- `#beginReconnect(now, reason)`
unfoldable pub begin_reconnect : ℕ → Ctx → Ctx
begin_reconnect now c =
    if (c.session.disposed || not c.farm.running) || same_state c.session.state stopped
    then c
    else retry_later now (set_state backoff (destroy_socket (call_road transport_unavailable c)))

-- `this.serial` is used, and the next one takes its place.
unfoldable pub take_serial : Ctx → Ctx
take_serial c = record c { session = record (c.session) { serial = next_serial c.session.serial } }

unfoldable pub next_write : Net → WriteResult
next_write n = elim n.writes [ [] ↦ accepted | w ∷ ws ↦ w ]

unfoldable pub rest_writes : Net → Net
rest_writes n = record n { writes = drop 1 n.writes }

-- The socket takes the packet; it says whether its buffer is full.
unfoldable pub packet_written : PacketType → List ℕ → Bool → Ctx → Ctx
packet_written type packet full c = record c {
  session = record (c.session) { backpressured = full };
  farm = record_packet type (length packet) c.farm;
  net = record (c.net) { sent = c.net.sent ++ (type, packet) ∷ [] };
}

unfoldable pub write_result : WriteResult → PacketType → List ℕ → Ctx → Bool × Ctx
write_result accepted type packet c = (true, packet_written type packet false c)
write_result queued type packet c = (true, packet_written type packet true c)
write_result failed type packet c =
    (false, begin_reconnect c.net.clock (record c { farm = record_error c.farm }))

-- `!this.socket || !this.socketConnected || this.socket.destroyed`
unfoldable pub cannot_write : Session → Bool
cannot_write s = elim s.socket [
  | none ↦ true
  | some destroyed ↦ not s.socket_connected || destroyed
]

-- `#writePacket(type, packet)`
unfoldable pub write_packet : PacketType → List ℕ → Ctx → Bool × Ctx
write_packet type packet c =
    if cannot_write c.session
    then (false, begin_reconnect c.net.clock c)
    else write_result (next_write c.net) type packet (record c { net = rest_writes c.net })

-- An error is thrown: the session and the farm stay as they are.
unfoldable pub throw : Ctx → Ctx
throw c = record c { net = record (c.net) { thrown = true } }

-- `#sendLogin(now)`, from what `buildLogin` returns or throws
unfoldable pub write_login : ℕ → Option (List ℕ) → Ctx → Ctx
write_login now none c = throw c
write_login now (some packet) c =
    let (written, c1) = write_packet login packet c in
    if written then schedule (now + c.session.config.login_ack_timeout_ms) c1 else c1

-- `#sendLogin(now)`
unfoldable pub send_login : ℕ → Ctx → Ctx
send_login now c =
    let serial = c.session.serial in
    let c1 = set_state login_sent c in
    let c2 = take_serial (record c1 {
      session = record (c1.session) {
        login_attempts = c1.session.login_attempts + 1;
        last_login_serial = serial;
      };
    }) in
    if not c.session.socket_connected
    then begin_reconnect now c
    else write_login now (build_login c.session.imei serial) c2

-- `#connect(now)`. Where setting up the socket throws, a socket that was made may stand in the field
-- until `#beginReconnect` lets it go, with the token counted up all the same: this is left out.
unfoldable pub connect : ℕ → Ctx → Ctx
connect now c =
    let c1 = destroy_socket c in
    let c2 = set_state connecting (record c1 {
      session = record (c1.session) {
        decoder = new_decoder;
        login_attempts = 0;
        backpressured = false;
      };
    }) in
    let c3 = record c2 {
      session = record (c2.session) { socket_token = c2.session.socket_token + 1 };
    } in
    if c3.net.connect_throws
    then begin_reconnect now (record c3 { farm = record_error c3.farm })
    else schedule (now + c3.session.config.connect_timeout_ms)
        (record c3 { session = record (c3.session) { socket = some false } })

-- The heartbeat of `#sendOnlinePackets`, from what `buildHeartbeat` returns or throws: false if the
-- method goes no further.
unfoldable pub write_heartbeat : ℕ → Option (List ℕ) → Ctx → Bool × Ctx
write_heartbeat now none c = (false, throw c)
write_heartbeat now (some packet) c =
    let (written, c1) = write_packet heartbeat packet c in
    if written
    then (
      true,
      record c1 {
        session = record (c1.session) {
          next_heartbeat_at = now + c1.session.config.heartbeat_interval_ms;
        };
      },
    )
    else (false, c1)

unfoldable pub send_heartbeat : ℕ → Ctx → Bool × Ctx
send_heartbeat now c =
    if not (leb c.session.next_heartbeat_at now)
    then (true, c)
    else write_heartbeat now (build_heartbeat c.session.serial c.session.moving) (take_serial c)

-- The call that gives a point.
unfoldable pub take_point : Ctx → Ctx
take_point c =
    let call = if c.session.has_road_model then propose_point else next_point in
    record c { session = record (c.session) { route = c.session.route ++ call ∷ [] } }

-- The location of `#sendOnlinePackets`, from what `buildLocation` returns or throws. A proposed point is
-- committed once its packet is written; its token is the one of the proposal, so this does not throw.
unfoldable pub write_location : ℕ → Option (List ℕ) → Ctx → Bool × Ctx
write_location now none c = (false, throw c)
write_location now (some packet) c =
    let (written, c1) = write_packet location packet c in
    let c2 = call_road commit_queued_point c1 in
    let interval =
      if c2.session.moving
      then c2.session.config.moving_interval_ms
      else c2.session.config.parked_interval_ms in
    if written
    then (true, record c2 { session = record (c2.session) { next_location_at = now + interval } })
    else (false, c1)

-- The same, from the point that the movement model gives.
unfoldable pub locate : ℕ → Option Point → Ctx → Bool × Ctx
locate now none c = (false, throw (take_point c))
locate now (some point) c =
    write_location now (build_location c.session.serial point) (take_serial (take_point c))

unfoldable pub send_location : ℕ → Ctx → Bool × Ctx
send_location now c =
    if not (leb c.session.next_location_at now) then (true, c) else locate now c.net.point c

-- `#sendOnlinePackets(now)`
unfoldable pub send_online_packets : ℕ → Ctx → Ctx
send_online_packets now c =
    let (on, c1) = send_heartbeat now c in
    let (done, c2) = send_location now c1 in
    if c.session.backpressured
    then schedule (now + 100) c
    else if not on
    then c1
    else if not done
    then c2
    else schedule (min c2.session.next_heartbeat_at c2.session.next_location_at) c2
