-- ===== src/Movement/Model.antt =====
-- src/simulator/road-movement.js: the class RoadMovementModel. A token is named by its `id`; an error is
-- `none`. A clock gives whole milliseconds from 0.
use gps_device_virtual_farm.Prelude.{
  ℕ, suc, ◌+◌, ◌-◌, ◌/◌, ◌%◌, min, max, Bool, true, false, not, ◌&&◌, Option, none, some, List, [],
  ◌∷◌, ◌++◌, ltb, leb, ◌==◌, if◌then◌else◌,
}
use gps_device_virtual_farm.Fnv1a.{fnv1a}
use gps_device_virtual_farm.Movement.{
  RoadPoint, RoadRoute, Geometry, moving, parked, terminal, is_phase, MoveState, advance_state,
}
use gps_device_virtual_farm.Movement.Checkpoint.{
  Assignment, Checkpoint, latest_time, is_assigned, validate_checkpoint,
}
use gps_device_virtual_farm.Movement.Route.{validated_stops, next_stop_index, validate_route}

pub record GpsPoint : Type 0 where
  pub latitude : ℕ
  pub longitude : ℕ
  pub speed_kph_tenths : ℕ
  pub course : ℕ
  pub satellites : ℕ
  pub valid : Bool
  pub device_time : ℕ

pub record Proposal : Type 0 where
  pub gps_point : GpsPoint
  pub token : ℕ

pub record Pending : Type 0 where
  pub proposal : Proposal
  pub next : MoveState
  pub now_monotonic_ms : ℕ

pub record Model : Type 0 where
  pub route : RoadRoute
  pub assignment : Assignment
  pub speed_seed : ℕ
  pub stop_seed : ℕ
  pub stop_meters : List ℕ
  pub available : Bool
  pub last_motion_ms : Option ℕ
  pub pending : Option Pending
  pub token_sequence : ℕ
  pub state : MoveState

abbrev pub value_or : Option ℕ → ℕ → ℕ
value_or none fallback = fallback
value_or (some v) fallback = v

-- `this.state`, with its `if (!moving)`
unfoldable pub initial_state : Geometry → RoadRoute → Assignment → List ℕ → MoveState
initial_state g route a stops =
    let point = g.point_at route a.cursor_meters in
    record {
      cursor_meters = a.cursor_meters;
      completed_tours = 0;
      phase = if a.moving then moving else parked;
      current_speed_mps = 0;
      heading_degrees = point.course;
      last_queued_wall_utc_ms = 0;
      last_queued_latitude = point.latitude;
      last_queued_longitude = point.longitude;
      next_stop_index = next_stop_index stops a.cursor_meters;
      dwell_remaining_ms = 0;
    }

unfoldable pub resumed_state : Assignment → Checkpoint → MoveState
resumed_state a c = record (c.state) {
  current_speed_mps = 0;
  phase = if a.moving then c.state.phase else parked;
}

-- `` fnv1a(`${assignment.imei}|speed`) `` and its like
abbrev pub speed_suffix : List ℕ
speed_suffix = 124 ∷ 115 ∷ 112 ∷ 101 ∷ 101 ∷ 100 ∷ []

abbrev pub stop_suffix : List ℕ
stop_suffix = 124 ∷ 115 ∷ 116 ∷ 111 ∷ 112 ∷ []

unfoldable pub model_of : RoadRoute → Assignment → List ℕ → MoveState → Model
model_of route a stops state = record {
  route = route;
  assignment = a;
  speed_seed = value_or a.speed_seed (fnv1a (a.imei ++ speed_suffix));
  stop_seed = value_or a.stop_seed (fnv1a (a.imei ++ stop_suffix));
  stop_meters = stops;
  available = true;
  last_motion_ms = none;
  pending = none;
  token_sequence = 0;
  state = state;
}

-- The constructor, after the tests of the route and the assignment.
unfoldable pub construct :
    Geometry → RoadRoute → Assignment → Option (List ℕ) → Option Checkpoint → Option Model
construct g route a none c = none
construct g route a (some stops) none =
    some (model_of route a stops (initial_state g route a stops))
construct g route a (some stops) (some c) =
    if validate_checkpoint c a route stops
    then some (model_of route a stops (resumed_state a c))
    else none

-- `new RoadMovementModel({ route, assignment, checkpoint })`
unfoldable pub new_model : Geometry → RoadRoute → Assignment → Option Checkpoint → Option Model
new_model g route a c =
    if validate_route g route && is_assigned a route
    then construct g route a (validated_stops route) c
    else none

-- `safeWallMs`
unfoldable pub safe_wall : ℕ → ℕ → ℕ
safe_wall now last = max now (last + (if last == 0 then 0 else 1))

unfoldable pub elapsed_ms : Model → ℕ → ℕ
elapsed_ms m now_monotonic = elim m.last_motion_ms [
  | none ↦ 0
  | some last ↦ if m.available then min (now_monotonic - last) 15000 else 0
]

-- `next`, up to its speed
unfoldable pub advanced : Geometry → Model → ℕ → Option MoveState
advanced g m elapsed =
    let s = m.state in
    if m.available && (not (is_phase s.phase parked) && not (is_phase s.phase terminal))
    then advance_state g m.route m.stop_meters m.speed_seed m.stop_seed elapsed s
    else some s

-- The point to send, and the state that remembers it.
unfoldable pub point_to_send : Model → RoadPoint → ℕ → MoveState → GpsPoint
point_to_send m point wall s = record {
  latitude = point.latitude;
  longitude = point.longitude;
  speed_kph_tenths = (s.current_speed_mps + 125000) / 250000;
  course = (s.heading_degrees + 500) / 1000 % 360;
  satellites = 8 + fnv1a m.assignment.imei % 5;
  valid = true;
  device_time = wall;
}

unfoldable pub remember : GpsPoint → ℕ → MoveState → MoveState
remember point wall s = record s {
  last_queued_wall_utc_ms = wall;
  last_queued_latitude = point.latitude;
  last_queued_longitude = point.longitude;
}

unfoldable pub still : Bool → MoveState → MoveState
still available s = if available then s else record s { current_speed_mps = 0 }

unfoldable pub turn : RoadPoint → MoveState → MoveState
turn point s = if ltb 0 s.current_speed_mps then record s { heading_degrees = point.course } else s

unfoldable pub propose_next : Geometry → Model → ℕ → ℕ → MoveState → Proposal × Model
propose_next g m wall now_monotonic moved =
    let stilled = still m.available moved in
    let point = g.point_at m.route stilled.cursor_meters in
    let turned = turn point stilled in
    let gps_point = point_to_send m point wall turned in
    let proposal : Proposal = record { gps_point = gps_point; token = suc m.token_sequence } in
    (
      proposal,
      record m {
        token_sequence = suc m.token_sequence;
        pending = some (record {
          proposal = proposal;
          next = remember gps_point wall turned;
          now_monotonic_ms = now_monotonic;
        });
      },
    )

unfoldable pub propose_moved :
    Geometry → Model → ℕ → ℕ → Option MoveState → Option (Proposal × Model)
propose_moved g m wall now_monotonic none = none
propose_moved g m wall now_monotonic (some moved) = some (propose_next g m wall now_monotonic moved)

-- `proposePoint`, from the pending proposal; `toISOString` throws past the latest time.
unfoldable pub propose_with : Geometry → ℕ → ℕ → Model → Option Pending → Option (Proposal × Model)
propose_with g now_wall now_monotonic m (some p) = some (p.proposal, m)
propose_with g now_wall now_monotonic m none =
    let wall = safe_wall now_wall m.state.last_queued_wall_utc_ms in
    if leb now_wall latest_time && leb wall latest_time
    then propose_moved g m wall now_monotonic (advanced g m (elapsed_ms m now_monotonic))
    else none

-- `proposePoint(nowWallUtcMs, nowMonotonicMs)`
unfoldable pub propose_point : Geometry → ℕ → ℕ → Model → Option (Proposal × Model)
propose_point g now_wall now_monotonic m = propose_with g now_wall now_monotonic m m.pending

unfoldable pub commit_with : ℕ → Model → Option Pending → Option Model
commit_with token m none = none
commit_with token m (some p) =
    if p.proposal.token == token
    then some
        (record m { state = p.next; last_motion_ms = some p.now_monotonic_ms; pending = none })
    else none

-- `commitQueuedPoint(token)`
unfoldable pub commit_queued_point : ℕ → Model → Option Model
commit_queued_point token m = commit_with token m m.pending

-- `onTransportAvailable(nowMonotonicMs)` and `onTransportUnavailable()`
unfoldable pub on_transport_available : ℕ → Model → Model
on_transport_available now_monotonic m = record m {
  available = true;
  last_motion_ms = some now_monotonic;
  pending = none;
}

unfoldable pub on_transport_unavailable : Model → Model
on_transport_unavailable m = record m {
  available = false;
  last_motion_ms = none;
  pending = none;
  state = record (m.state) { current_speed_mps = 0 };
}

-- `checkpoint()`
unfoldable pub checkpoint : Model → Checkpoint
checkpoint m = record {
  schema_version = 1;
  imei = m.assignment.imei;
  moving = m.assignment.moving;
  region_id = m.assignment.region_id;
  route_id = m.assignment.route_id;
  route_digest = m.assignment.route_digest;
  route_pack_digest = m.assignment.route_pack_digest;
  state = m.state;
  speed_seed = m.speed_seed;
  stop_seed = m.stop_seed;
  parked_anchor = m.assignment.parked_anchor;
}
