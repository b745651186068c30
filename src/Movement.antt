-- ===== src/Movement.antt =====
-- src/simulator/road-movement.js: a vehicle's motion along a verified route. Distances, speeds and times
-- are whole numbers, in units in which the code's constants are exact: a millisecond, a speed of 1/9 of a
-- micrometre a second (1 km/h is 2500000 of it, 1 m/s is 9000000), and the half of what that speed covers
-- in a millisecond (1 m is 18000000000 of it). Sums and products are exact, where the code rounds doubles.
-- Courses are in thousandths of a degree, latitudes and longitudes in microdegrees from the south pole and
-- from the meridian 180 west. The trigonometry is in `Geometry`.
pub mod Route
pub mod Checkpoint
pub mod Model
pub mod Segment
pub mod Advance
pub mod Sound
pub mod Calls
pub mod Resume
pub mod Commit
mod Examples
use gps_device_virtual_farm.Prelude.{
  ℕ, zero, suc, ◌+◌, ◌-◌, ◌*◌, ◌/◌, ◌%◌, min, max, Bool, true, false, Option, none, some, List,
  ◌==◌, leb, ◌&&◌, ltb, if◌then◌else◌, get_elem?,
}

-- The families of routes.
pub data Family : Type 0 where
  local urban suburban peripheral regional intercity depot delivery : Family

pub record RoadPoint : Type 0 where
  pub latitude : ℕ
  pub longitude : ℕ
  pub course : ℕ

-- What the model reads of a route. Texts are numbers that stand for them.
pub record RoadRoute : Type 0 where
  pub id : ℕ
  pub digest : ℕ
  pub region_id : ℕ
  pub family : Family
  pub points : List (ℕ × ℕ)
  pub cumulative_meters : List ℕ
  pub length_meters : ℕ
  pub closed_loop : Bool
  pub stop_meters : Option (List ℕ)
  pub leg_end_indices : Option (List ℕ)

-- `targetSpeedKph` before its last `clamp`, as a speed; `pointAtDistance` with its interpolation; and the
-- test that a closed route has a gap at its end.
pub record Geometry : Type 0 where
  pub raw_target : RoadRoute → ℕ → ℕ → ℕ
  pub point_at : RoadRoute → ℕ → RoadPoint
  pub has_gap : RoadRoute → Bool

pub data Phase : Type 0 where
  moving dwelling parked terminal : Phase

-- `===` on phases
abbrev pub phase_code : Phase → ℕ
phase_code moving = 0
phase_code dwelling = 1
phase_code parked = 2
phase_code terminal = 3

abbrev pub is_phase : Phase → Phase → Bool
is_phase a b = phase_code a == phase_code b

-- The fields of `state`.
pub record MoveState : Type 0 where
  pub cursor_meters : ℕ
  pub completed_tours : ℕ
  pub phase : Phase
  pub current_speed_mps : ℕ
  pub heading_degrees : ℕ
  pub last_queued_wall_utc_ms : ℕ
  pub last_queued_latitude : ℕ
  pub last_queued_longitude : ℕ
  pub next_stop_index : ℕ
  pub dwell_remaining_ms : ℕ

-- `clamp(value, minimum, maximum)`
unfoldable pub clamp : ℕ → ℕ → ℕ → ℕ
clamp value minimum maximum = max minimum (min maximum value)

-- 95 km/h
abbrev pub fastest : ℕ
fastest = 237500000

-- `targetSpeedKph(route, cursorMeters, speedSeed) / 3.6`
unfoldable pub target_speed : Geometry → RoadRoute → ℕ → ℕ → ℕ
target_speed g route cursor seed = clamp (g.raw_target route cursor seed) 20000000 fastest

-- `newSpeed`: the speed comes nearer to the target, by 2.5 m/s2 or 1.5 m/s2 at most.
unfoldable pub new_speed : ℕ → ℕ → ℕ → ℕ
new_speed old target step_ms = max (old - 22500 * step_ms) (min target (old + 13500 * step_ms))

-- A step of the loop in the phase `dwelling`.
unfoldable pub dwell : ℕ → MoveState → MoveState
dwell step_ms s =
    let left = s.dwell_remaining_ms - step_ms in
    record s {
      dwell_remaining_ms = left;
      current_speed_mps = 0;
      phase = if left == 0 then moving else s.phase;
    }

-- What follows the motion, at a stop and at the route's end.
unfoldable pub reach_stop : ℕ → ℕ → MoveState → MoveState
reach_stop stop_seed next_stop s = record s {
  cursor_meters = next_stop;
  current_speed_mps = 0;
  phase = dwelling;
  dwell_remaining_ms = 5000 + stop_seed % 11 * 1000;
  next_stop_index = suc s.next_stop_index;
}

unfoldable pub reach_end : RoadRoute → MoveState → MoveState
reach_end route s =
    if route.closed_loop
    then record s {
      current_speed_mps = 0;
      cursor_meters = 0;
      completed_tours = s.completed_tours + 1;
      next_stop_index = 0;
    }
    else record s { current_speed_mps = 0; cursor_meters = route.length_meters; phase = terminal }

-- A step of the loop in the phase `moving`. A stop, if there is one, lies before the route's end.
unfoldable pub drive : Geometry → RoadRoute → List ℕ → ℕ → ℕ → ℕ → MoveState → MoveState
drive g route stops speed_seed stop_seed step_ms s =
    let target = target_speed g route s.cursor_meters speed_seed in
    let speed = new_speed s.current_speed_mps target step_ms in
    let traveled_meters = (s.current_speed_mps + speed) * step_ms in
    let distance_to_end = route.length_meters - s.cursor_meters in
    elim (get_elem? stops s.next_stop_index) [
      | some next_stop ↦
          let distance_to_stop = next_stop - s.cursor_meters in
          let traveled = min traveled_meters (min distance_to_stop distance_to_end) in
          let moved = record s {
            cursor_meters = s.cursor_meters + traveled;
            current_speed_mps = speed;
          } in
          if leb distance_to_stop traveled_meters && leb distance_to_stop distance_to_end
          then reach_stop stop_seed next_stop moved
          else if leb distance_to_end traveled_meters
          then reach_end route moved
          else moved
      | none ↦
          let traveled = min traveled_meters distance_to_end in
          let moved = record s {
            cursor_meters = s.cursor_meters + traveled;
            current_speed_mps = speed;
          } in
          if leb distance_to_end traveled_meters then reach_end route moved else moved
    ]

-- `advanceState`, on fuel: a round takes a second, or what is left. `none` would mean that the fuel ran
-- out.
unfoldable pub advance_loop :
    Geometry → RoadRoute → List ℕ → ℕ → ℕ → ℕ → ℕ → MoveState → Option MoveState
advance_loop g route stops speed_seed stop_seed zero remaining s =
    if remaining == 0 then some s else none
advance_loop g route stops speed_seed stop_seed (suc fuel) remaining s =
    let step_ms = min remaining 1000 in
    let left = remaining - step_ms in
    let dwelt = advance_loop g route stops speed_seed stop_seed fuel left (dwell step_ms s) in
    let driven =
      advance_loop g route stops speed_seed stop_seed fuel left
        (drive g route stops speed_seed stop_seed step_ms s) in
    if remaining == 0
    then some s
    else if is_phase s.phase dwelling
    then dwelt
    else if is_phase s.phase moving
    then driven
    else some s

-- A model never asks for more than `MAX_STEP_MS`, so 15 rounds are enough.
unfoldable pub advance_state :
    Geometry → RoadRoute → List ℕ → ℕ → ℕ → ℕ → MoveState → Option MoveState
advance_state g route stops speed_seed stop_seed elapsed s =
    advance_loop g route stops speed_seed stop_seed 15 elapsed s
