-- ===== src/Session/Accounts/Steps.antt =====
-- Every event of a session, src/simulator/device-session.js, keeps the farm's counts right.
use gps_device_virtual_farm.Prelude.{
  holds_if, ℕ, ◌+◌, ◌-◌, ◌≡◌, min, true, false, not, ◌||◌, ◌&&◌, Option, none, some, List, [], ◌∷◌,
  ltb, ◌==◌, if◌then◌else◌, arith, length,
}
use gps_device_virtual_farm.Gt06.Decoder.{Frame, FrameDecoder, feed}
use gps_device_virtual_farm.Gt06.Frame.{ServerCommand, parse_server_command, build_command_response}
use gps_device_virtual_farm.Farm.{
  SessionState, pending, connecting, login_sent, online, backoff, stopped, Farm, command_response,
  same_state, record_error, record_socket_up, record_acknowledgement, record_malformed,
  record_bytes_received,
}
use gps_device_virtual_farm.Session.{Net, Ctx, transport_available, transport_unavailable}
use gps_device_virtual_farm.Session.Handlers.{
  mark_socket_disconnected, destroy_socket, set_state, call_road, take_serial,
}
use gps_device_virtual_farm.Session.Events.{
  is_current_socket, on_connect, promote_online, answer_to, write_answer, answer_command,
  handle_command, on_frame, on_frames, on_fed, on_data, on_drain, on_error, on_close, due,
  handle_due, dispose,
}
use gps_device_virtual_farm.Session.Accounts.{
  Accounts, schedule-Accounts, mark-Accounts, destroy-Accounts, set_state-Accounts,
  call_road-Accounts, begin_reconnect-Accounts, take_serial-Accounts, write_packet-Accounts,
}
use gps_device_virtual_farm.Session.Accounts.Methods.{
  throw-Accounts, send_login-Accounts, connect-Accounts, send_online_packets-Accounts,
}

-- A step of a session: one event, in the world that the handler finds. A socket reports its connection
-- at most once, so it is not connected before.
pub data Step : Ctx → Ctx → Type 0 where
  opened : (token : ℕ) (c : Ctx) → c.session.socket_connected ≡ false → Step c (on_connect token c)
  received : (token : ℕ) (chunk : List ℕ) (c : Ctx) → Step c (on_data token chunk c)
  drained : (token : ℕ) (c : Ctx) → Step c (on_drain token c)
  errored : (token : ℕ) (c : Ctx) → Step c (on_error token c)
  closed : (token : ℕ) (c : Ctx) → Step c (on_close token c)
  came_due : (now : ℕ) (c : Ctx) → Step c (handle_due now c)
  let_go : (c : Ctx) → Step c (dispose c)
  world_moved : (net : Net) (c : Ctx) → Step c (record c { net = net })

pub data Steps : Ctx → Ctx → Type 0 where
  done : {c : Ctx} → Steps c c
  next : {a b c : Ctx} → Step a b → Steps b c → Steps a c

module _ (others : SessionState → ℕ) (others_tcp : ℕ) where
  abbrev Kept : Ctx → Type 0
  Kept c = Accounts others others_tcp c

  on_connect-Accounts :
      (token : ℕ) (c : Ctx)
      → c.session.socket_connected ≡ false
      → Kept c
      → Kept (on_connect token c)
  unfolding on_connect record_socket_up
  on_connect-Accounts token c off (states, tcp, low, high) =
      let c1 = record c {
        session = record (c.session) { socket_connected = true };
        farm = record_socket_up c.farm;
      } in
      holds_if Kept (not (is_current_socket token c.session)) (states, tcp, low, high)
        (send_login-Accounts others others_tcp c.net.clock c1
          (states, ground (arith, tcp, off), low, high))

  promote_online-Accounts : (now : ℕ) (c : Ctx) → Kept c → Kept (promote_online now c)
  unfolding promote_online
  promote_online-Accounts now c h =
      let c0 = record c { session = record (c.session) { reconnect_attempt = 0 } } in
      let c1 = set_state online c0 in
      let c2 = call_road transport_available c1 in
      send_online_packets-Accounts others others_tcp now
        (record c2 {
          session = record (c2.session) { next_heartbeat_at = now; next_location_at = now };
        })
        (call_road-Accounts others others_tcp transport_available c1
          (set_state-Accounts others others_tcp online c0 h))

  write_answer-Accounts :
      (packet : Option (List ℕ)) (c : Ctx) → Kept c → Kept (write_answer packet c)
  unfolding write_answer
  write_answer-Accounts none c h = throw-Accounts others others_tcp c h
  write_answer-Accounts (some packet) c h =
      write_packet-Accounts others others_tcp command_response packet c h

  answer_command-Accounts :
      (command : Option ServerCommand) (c : Ctx) → Kept c → Kept (answer_command command c)
  unfolding answer_command
  answer_command-Accounts none c h = h
  answer_command-Accounts (some command) c h =
      holds_if Kept (not (same_state c.session.state online)) h (
        write_answer-Accounts
          (build_command_response c.session.serial command.server_flag (answer_to command.command))
          (take_serial c) (take_serial-Accounts others others_tcp c h))

  on_frame-Accounts : (f : Frame) (c : Ctx) → Kept c → Kept (on_frame f c)
  unfolding on_frame record_acknowledgement handle_command
  on_frame-Accounts f c h =
      let c1 = record c { farm = record_acknowledgement c.farm } in
      holds_if Kept (f.protocol == 0x01 && same_state c.session.state login_sent)
        (promote_online-Accounts c.net.clock c1 h)
        (holds_if Kept (f.protocol == 0x80) (answer_command-Accounts (parse_server_command f) c1 h)
          h)

  on_frames-Accounts : (fs : List Frame) (c : Ctx) → Kept c → Kept (on_frames fs c)
  unfolding on_frames
  on_frames-Accounts [] c h = h
  on_frames-Accounts (f ∷ fs) c h =
      let h1 = on_frame-Accounts f c h in
      holds_if Kept (on_frame f c).net.thrown h1 (on_frames-Accounts fs (on_frame f c) h1)

  on_fed-Accounts :
      (fed : Option (FrameDecoder × List Frame)) (chunk : List ℕ) (c : Ctx)
      → Kept c
      → Kept (on_fed fed chunk c)
  unfolding on_fed record_bytes_received record_malformed
  on_fed-Accounts none chunk c h = h
  on_fed-Accounts (some (decoder, frames)) chunk c h =
      let delta = decoder.malformed_frames - c.session.decoder.malformed_frames in
      let farm = record_bytes_received (length chunk) c.farm in
      let c1 : Farm → Ctx = λ f. record c {
        session = record (c.session) { decoder = decoder };
        farm = f;
        net = record (c.net) { thrown = false };
      } in
      on_frames-Accounts frames (c1 (if ltb 0 delta then record_malformed delta farm else farm))
        (holds_if (λ f. Kept (c1 f)) (ltb 0 delta) {x = record_malformed delta farm} {y = farm} h h)

  on_data-Accounts : (token : ℕ) (chunk : List ℕ) (c : Ctx) → Kept c → Kept (on_data token chunk c)
  unfolding on_data
  on_data-Accounts token chunk c h =
      holds_if Kept (not (is_current_socket token c.session)) h
        (on_fed-Accounts (feed c.session.decoder chunk) chunk c h)

  on_drain-Accounts : (token : ℕ) (c : Ctx) → Kept c → Kept (on_drain token c)
  unfolding on_drain
  on_drain-Accounts token c h =
      let c1 = record c { session = record (c.session) { backpressured = false } } in
      let at = min c.net.clock (min c.session.next_heartbeat_at c.session.next_location_at) in
      holds_if Kept (not (is_current_socket token c.session)) h (
        holds_if Kept (same_state c.session.state online)
          (schedule-Accounts others others_tcp at c1 h) h)

  on_error-Accounts : (token : ℕ) (c : Ctx) → Kept c → Kept (on_error token c)
  unfolding on_error record_error
  on_error-Accounts token c h =
      holds_if Kept (not (is_current_socket token c.session) || c.session.disposed) h (
        begin_reconnect-Accounts others others_tcp c.net.clock
          (record c { farm = record_error c.farm }) h)

  on_close-Accounts : (token : ℕ) (c : Ctx) → Kept c → Kept (on_close token c)
  unfolding on_close
  on_close-Accounts token c h =
      let c1 = mark_socket_disconnected c in
      let c2 = record c1 { session = record (c1.session) { socket = none } } in
      let h2 = mark-Accounts others others_tcp c h in
      holds_if Kept (not (is_current_socket token c.session) || c.session.disposed) h (
        holds_if Kept (same_state c.session.state backoff || same_state c.session.state stopped) h2
          (begin_reconnect-Accounts others others_tcp c.net.clock c2 h2))

  due-Accounts : (state : SessionState) (now : ℕ) (c : Ctx) → Kept c → Kept (due state now c)
  unfolding due
  due-Accounts pending now c h = connect-Accounts others others_tcp now c h
  due-Accounts backoff now c h = connect-Accounts others others_tcp now c h
  due-Accounts connecting now c h = begin_reconnect-Accounts others others_tcp now c h
  due-Accounts login_sent now c h =
      holds_if Kept (ltb c.session.login_attempts c.session.config.max_login_attempts)
        (send_login-Accounts others others_tcp now c h)
        (begin_reconnect-Accounts others others_tcp now c h)
  due-Accounts online now c h = send_online_packets-Accounts others others_tcp now c h
  due-Accounts stopped now c h = h

  handle_due-Accounts : (now : ℕ) (c : Ctx) → Kept c → Kept (handle_due now c)
  unfolding handle_due
  handle_due-Accounts now c h =
      holds_if Kept (c.session.disposed || not c.farm.running) h
        (due-Accounts c.session.state now c h)

  dispose-Accounts : (c : Ctx) → Kept c → Kept (dispose c)
  unfolding dispose
  dispose-Accounts c h =
      let c1 = call_road transport_unavailable c in
      let c2 = record c1 {
        session = record (c1.session) {
          disposed = true;
          schedule_version = c1.session.schedule_version + 1;
        };
      } in
      holds_if Kept c.session.disposed h (
        set_state-Accounts others others_tcp stopped (destroy_socket c2) (
          destroy-Accounts others others_tcp c2
            (call_road-Accounts others others_tcp transport_unavailable c h)))

  step-Accounts : {c d : Ctx} → Step c d → Kept c → Kept d
  step-Accounts (opened token c off) h = on_connect-Accounts token c off h
  step-Accounts (received token chunk c) h = on_data-Accounts token chunk c h
  step-Accounts (drained token c) h = on_drain-Accounts token c h
  step-Accounts (errored token c) h = on_error-Accounts token c h
  step-Accounts (closed token c) h = on_close-Accounts token c h
  step-Accounts (came_due now c) h = handle_due-Accounts now c h
  step-Accounts (let_go c) h = dispose-Accounts c h
  step-Accounts (world_moved net c) h = h

-- Whatever events reach a session, in whatever order (but that a socket reports its connection only
-- while the session is not connected), and whatever comes of its calls: if the farm's counts of states and of connected sockets are those of the other
-- sessions with this session added in its state and its connection, and its serial number is one of
-- 1, …, 65535, so they are after.
pub Steps-Accounts :
    (others : SessionState → ℕ) (others_tcp : ℕ) {c d : Ctx}
    → Steps c d
    → Accounts others others_tcp c
    → Accounts others others_tcp d
Steps-Accounts others others_tcp done h = h
Steps-Accounts others others_tcp (next step steps) h =
    Steps-Accounts others others_tcp steps (step-Accounts others others_tcp step h)
