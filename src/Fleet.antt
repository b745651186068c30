-- ===== src/Fleet.antt =====
-- src/simulator/device-farm.js: the farm with all its sessions: start, activate, stop and the pump. The
-- interval between two connections is computed exactly. Where road models are used, their allocation is
-- made before; it changes only which movement model a session has.
pub mod Balance
pub mod Pump
pub mod Run
pub mod Ends
pub mod Stop
mod Examples
use gps_device_virtual_farm.Prelude.{
  ℕ, zero, suc, ◌+◌, ◌-◌, ◌*◌, ◌/◌, min, max, Bool, true, false, not, ◌&&◌, ◌||◌, Option, none,
  some, List, [], ◌∷◌, ◌++◌, ltb, ◌==◌, if◌then◌else◌, length, get_elem?, set,
}
use gps_device_virtual_farm.MinHeap
use gps_device_virtual_farm.Fnv1a.{fnv1a}
use gps_device_virtual_farm.Imei.{generate_imei}
use gps_device_virtual_farm.Gt06.Decoder.{new_decoder}
use gps_device_virtual_farm.Farm.{
  SessionState, pending, Stats, StateCounts, Entry, Farm, entry_rank, no_entry, count_of, set_count,
}
use gps_device_virtual_farm.Session.{SessionConfig, Session, Net, Ctx, infinity}
use gps_device_virtual_farm.Session.Handlers.{schedule}
use gps_device_virtual_farm.Session.Events.{handle_due, dispose}

pub data Status : Type 0 where
  idle running stopping : Status

abbrev pub is_idle : Status → Bool
is_idle idle = true
is_idle _ = false

-- The fields of a DeviceFarm, with the timers that are set and the delay of the pump's, and with the
-- calls of `stop` that wait between two batches: the index of the session that each goes on from.
pub record Fleet : Type 0 where
  pub farm : Farm
  pub sessions : List Session
  pub status : Status
  pub pump_timer : Bool
  pub pump_delay : ℕ
  pub metrics_timer : Bool
  pub awaiting : List ℕ

-- The configuration that `start` reads.
pub record FleetConfig : Type 0 where
  pub session_config : SessionConfig
  pub device_count : ℕ
  pub moving_count : ℕ
  pub connection_rate_per_second : ℕ
  pub real_road : Bool

-- `new DeviceSession({ index, imei, moving, farm, movementModel })`
unfoldable pub new_session : SessionConfig → ℕ → List ℕ → Bool → Bool → Session
new_session config index imei moving road = record {
  index = index;
  imei = imei;
  moving = moving;
  config = config;
  state = pending;
  socket = none;
  socket_token = 0;
  socket_connected = false;
  decoder = new_decoder;
  serial = 1;
  login_attempts = 0;
  last_login_serial = 0;
  reconnect_attempt = 0;
  next_heartbeat_at = infinity;
  next_location_at = infinity;
  next_action_at = infinity;
  schedule_version = 0;
  backpressured = false;
  disposed = false;
  hash = fnv1a imei;
  has_road_model = road;
  route = [];
}

-- A call of a session's method, and whether it throws. The world is what the method finds outside.
unfoldable pub visit : ℕ → Net → (Ctx → Ctx) → Fleet → Bool × Fleet
visit index net method f = elim (get_elem? f.sessions index) [
  | none ↦ (false, f)
  | some s ↦
      let after =
        method (record { session = s; farm = f.farm; net = record net { thrown = false } }) in
      (
        after.net.thrown,
        record f { farm = after.farm; sessions = set f.sessions index after.session },
      )
]

-- A round of the loop of `start`.
unfoldable pub add_session : FleetConfig → Net → ℕ → ℕ → List ℕ → Fleet → Fleet
add_session config net started_at index imei f =
    let s =
      new_session config.session_config index imei (ltb index config.moving_count)
        config.real_road in
    let c = f.farm.state_counts in
    let counted = record (f.farm) { state_counts = set_count c pending (count_of c pending + 1) } in
    let after =
      schedule (started_at + index * 1000 / config.connection_rate_per_second)
        (record { session = s; farm = counted; net = net }) in
    record f { farm = after.farm; sessions = f.sessions ++ after.session ∷ [] }

-- The loop of `start`; `count` sessions are left. An IMEI that is out of range is an error.
unfoldable pub add_sessions : FleetConfig → Net → ℕ → ℕ → ℕ → Fleet → Option Fleet
add_sessions config net started_at index zero f = some f
add_sessions config net started_at index (suc count) f = elim (generate_imei index) [
  | none ↦ none
  | some imei ↦
      add_sessions config net started_at (suc index) count
        (add_session config net started_at index imei f)
]

-- `#schedulePump(delay)`
unfoldable pub schedule_pump : ℕ → Fleet → Fleet
schedule_pump delay f =
    if f.farm.running then record f { pump_timer = true; pump_delay = delay } else f

-- `activate()`; `none` is its error.
unfoldable pub activate : Fleet → Option Fleet
activate f =
    if not f.farm.running
    then none
    else if f.pump_timer || f.metrics_timer
    then some f
    else some (record (schedule_pump 0 f) { metrics_timer = true })

-- `start({ deferPump })`
unfoldable pub start : FleetConfig → Net → Bool → Fleet → Option Fleet
start config net defer_pump f =
    let begun = record f { farm = record (f.farm) { running = true }; sessions = [] } in
    if f.farm.running
    then some f
    else elim (add_sessions config net net.clock 0 config.device_count begun) [
      | none ↦ none
      | some filled ↦
          let ready = record filled { status = running } in
          if defer_pump then some ready else activate ready
    ]

-- The inner loop of `stop`, from a session on; `world` is what each session's `dispose`, which does not
-- throw, finds.
unfoldable pub dispose_all : (ℕ → Net) → ℕ → ℕ → Fleet → Fleet
dispose_all world index zero f = f
dispose_all world index (suc count) f =
    dispose_all world (suc index) count (visit index (world index) dispose f).1

-- A round of the outer loop of `stop`, from a session on: a batch of 1000. If sessions are left, the call
-- waits, and other events come first; else it ends.
unfoldable pub stop_batch : (ℕ → Net) → ℕ → Fleet → Fleet
stop_batch world start f =
    let end = min (start + 1000) (length f.sessions) in
    let after = dispose_all world start (end - start) f in
    if ltb end (length f.sessions)
    then record after { awaiting = after.awaiting ++ end ∷ [] }
    else record after { status = idle }

-- `stop()`, until it returns or waits
unfoldable pub stop : (ℕ → Net) → Fleet → Fleet
stop world f =
    let halted = record f {
      farm = record (f.farm) { running = false; heap = MinHeap.clear f.farm.heap };
      status = stopping;
      pump_timer = false;
      metrics_timer = false;
    } in
    if not f.farm.running && is_idle f.status then f else stop_batch world 0 halted

-- The call of `stop` that has waited longest goes on (`setImmediate`).
unfoldable pub resume_stop : (ℕ → Net) → Fleet → Fleet
resume_stop world f = elim f.awaiting [
  | [] ↦ f
  | start ∷ later ↦ stop_batch world start (record f { awaiting = later })
]
