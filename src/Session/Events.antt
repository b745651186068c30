-- ===== src/Session/Events.antt =====
-- src/simulator/device-session.js: the handlers of a socket's events, `handleDue` and `dispose`.
use gps_device_virtual_farm.Prelude.{
  ℕ, ◌+◌, ◌-◌, min, Bool, true, false, not, ◌||◌, ◌&&◌, Option, none, some, List, [], ◌∷◌, ◌++◌,
  ltb, ◌==◌, if◌then◌else◌, length,
}
use gps_device_virtual_farm.Gt06.Decoder.{Frame, FrameDecoder, feed}
use gps_device_virtual_farm.Gt06.Frame.{ServerCommand, build_command_response, parse_server_command}
use gps_device_virtual_farm.Farm.{
  SessionState, pending, connecting, login_sent, online, backoff, stopped, same_state,
  command_response, record_socket_up, record_acknowledgement, record_bytes_received,
  record_malformed, record_error,
}
use gps_device_virtual_farm.Session.{
  Session, transport_available, transport_unavailable, infinity, Ctx, trim_start, trim_end,
}
use gps_device_virtual_farm.Session.Handlers.{
  schedule, mark_socket_disconnected, destroy_socket, set_state, call_road, begin_reconnect,
  take_serial, write_packet, throw, send_login, connect, send_online_packets,
}

-- `#isCurrentSocket(token)`
unfoldable pub is_current_socket : ℕ → Session → Bool
is_current_socket token s = elim s.socket [
  | none ↦ false
  | some destroyed ↦ not s.disposed && token == s.socket_token
]

-- `#onConnect(token)`
unfoldable pub on_connect : ℕ → Ctx → Ctx
on_connect token c =
    if not (is_current_socket token c.session)
    then c
    else send_login c.net.clock (record c {
      session = record (c.session) { socket_connected = true };
      farm = record_socket_up c.farm;
    })

-- `#promoteOnline(now)`
unfoldable pub promote_online : ℕ → Ctx → Ctx
promote_online now c =
    let c1 =
      set_state online (record c { session = record (c.session) { reconnect_attempt = 0 } }) in
    let c2 = call_road transport_available c1 in
    send_online_packets now (record c2 {
      session = record (c2.session) { next_heartbeat_at = now; next_location_at = now };
    })

-- `/^(STATUS|GETINFO|PARAM)/i.test(trimmed)`, a word at a time: upper and lower case of a letter.
starts_with : List ℕ → List ℕ → Bool
starts_with [] cs = true
starts_with (w ∷ ws) [] = false
starts_with (w ∷ ws) (c ∷ cs) = (c == w || c == w + 32) && starts_with ws cs

-- "STATUS", "GETINFO", "PARAM" and "=Success!"
is_query : List ℕ → Bool
is_query cs =
    starts_with (83 ∷ 84 ∷ 65 ∷ 84 ∷ 85 ∷ 83 ∷ []) cs
    || (starts_with (71 ∷ 69 ∷ 84 ∷ 73 ∷ 78 ∷ 70 ∷ 79 ∷ []) cs
        || starts_with (80 ∷ 65 ∷ 82 ∷ 65 ∷ 77 ∷ []) cs)

unfoldable pub answer_to : List ℕ → List ℕ
unfolding is_query starts_with
answer_to command =
    let trimmed = trim_end (trim_start command) in
    if is_query trimmed
    then trimmed ++ 61 ∷ 83 ∷ 117 ∷ 99 ∷ 99 ∷ 101 ∷ 115 ∷ 115 ∷ 33 ∷ []
    else trimmed

-- `#handleCommand(frame)`, from what `buildCommandResponse` returns or throws
unfoldable pub write_answer : Option (List ℕ) → Ctx → Ctx
write_answer none c = throw c
write_answer (some packet) c = (write_packet command_response packet c).1

-- `#handleCommand(frame)`, from the parsed command on
unfoldable pub answer_command : Option ServerCommand → Ctx → Ctx
answer_command none c = c
answer_command (some command) c =
    if not (same_state c.session.state online)
    then c
    else write_answer
        (build_command_response c.session.serial command.server_flag (answer_to command.command))
        (take_serial c)

-- `#handleCommand(frame)`
unfoldable pub handle_command : Frame → Ctx → Ctx
handle_command f c = answer_command (parse_server_command f) c

-- One round of the loop of `#onData`.
unfoldable pub on_frame : Frame → Ctx → Ctx
on_frame f c =
    let c1 = record c { farm = record_acknowledgement c.farm } in
    if f.protocol == 0x01 && same_state c.session.state login_sent
    then promote_online c.net.clock c1
    else if f.protocol == 0x80
    then handle_command f c1
    else c1

-- The loop: an error ends it.
unfoldable pub on_frames : List Frame → Ctx → Ctx
on_frames [] c = c
on_frames (f ∷ fs) c =
    let after = on_frame f c in
    let rest = on_frames fs after in if after.net.thrown then after else rest

-- `#onData(token, chunk)`, with what `feed` returned
unfoldable pub on_fed : Option (FrameDecoder × List Frame) → List ℕ → Ctx → Ctx
on_fed none chunk c = c
on_fed (some (decoder, frames)) chunk c =
    let delta = decoder.malformed_frames - c.session.decoder.malformed_frames in
    let farm = record_bytes_received (length chunk) c.farm in
    on_frames frames (record c {
      session = record (c.session) { decoder = decoder };
      farm = if ltb 0 delta then record_malformed delta farm else farm;
      net = record (c.net) { thrown = false };
    })

unfoldable pub on_data : ℕ → List ℕ → Ctx → Ctx
on_data token chunk c =
    if not (is_current_socket token c.session)
    then c
    else on_fed (feed c.session.decoder chunk) chunk c

-- `#onDrain(token)`
unfoldable pub on_drain : ℕ → Ctx → Ctx
on_drain token c =
    let c1 = record c { session = record (c.session) { backpressured = false } } in
    let at = min c.net.clock (min c.session.next_heartbeat_at c.session.next_location_at) in
    if not (is_current_socket token c.session)
    then c
    else if same_state c.session.state online
    then schedule at c1
    else c1

-- `#onError(token, error)`
unfoldable pub on_error : ℕ → Ctx → Ctx
on_error token c =
    if not (is_current_socket token c.session) || c.session.disposed
    then c
    else begin_reconnect c.net.clock (record c { farm = record_error c.farm })

-- `#onClose(token)`
unfoldable pub on_close : ℕ → Ctx → Ctx
on_close token c =
    let c1 = mark_socket_disconnected c in
    let c2 = record c1 { session = record (c1.session) { socket = none } } in
    if not (is_current_socket token c.session) || c.session.disposed
    then c
    else if same_state c.session.state backoff || same_state c.session.state stopped
    then c2
    else begin_reconnect c.net.clock c2

unfoldable pub due : SessionState → ℕ → Ctx → Ctx
due pending now c = connect now c
due backoff now c = connect now c
due connecting now c = begin_reconnect now c
due login_sent now c =
    if ltb c.session.login_attempts c.session.config.max_login_attempts
    then send_login now c
    else begin_reconnect now c
due online now c = send_online_packets now c
due stopped now c = c

-- `handleDue(now)`
unfoldable pub handle_due : ℕ → Ctx → Ctx
handle_due now c = if c.session.disposed || not c.farm.running then c else due c.session.state now c

-- `dispose()`
unfoldable pub dispose : Ctx → Ctx
dispose c =
    let c1 = call_road transport_unavailable c in
    let c2 = record c1 {
      session = record (c1.session) {
        disposed = true;
        schedule_version = c1.session.schedule_version + 1;
      };
    } in
    let c3 = set_state stopped (destroy_socket c2) in
    if c.session.disposed
    then c
    else record c3 { session = record (c3.session) { next_action_at = infinity } }
