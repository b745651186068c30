-- ===== src/Movement/Examples.antt =====
-- The theorems on src/simulator/road-movement.js at a route of two segments.
use gps_device_virtual_farm.Prelude.{
  ℕ, ◌+◌, ◌≤◌, ◌<◌, ◌≡◌, ◌⊎◌, refl, true, false, none, some, List, [], ◌∷◌, arith, length, get_or,
}
use gps_device_virtual_farm.Movement.{RoadRoute, Geometry, depot, advance_state, advance_loop}
use gps_device_virtual_farm.Movement.Checkpoint.{Assignment, is_assigned}
use gps_device_virtual_farm.Movement.Route.{
  validate_route, validated_stops, are_points, is_increasing, distance, check_stops, proposed_stops,
  are_stops, leg_stops,
}
use gps_device_virtual_farm.Movement.Model.{
  Model, Proposal, new_model, model_of, checkpoint, construct, initial_state, propose_point,
  propose_with, propose_moved, propose_next, advanced, elapsed_ms, safe_wall,
}
use gps_device_virtual_farm.Movement.Sound.{Bearings}
use gps_device_virtual_farm.Movement.Calls.{
  Operation, proposes, commits, connects, disconnects, apply_all,
}
use gps_device_virtual_farm.Movement.Resume.{at_rest, new_model-checkpoint}
use gps_device_virtual_farm.Movement.Commit.{IsProposed, propose_point-commit}
use gps_device_virtual_farm.Movement.Segment.{segment_at_distance, segment_at_distance_lem}

-- All speeds are 40 km/h, and all courses are east.
abbrev flat : Geometry
flat = record {
  raw_target = λ route cursor seed. 100000000;
  point_at = λ route cursor. record { latitude = 90000000; longitude = 180000000; course = 90000 };
  has_gap = λ route. false;
}

-- A loop of 100 m with a stop after 40 m.
abbrev route : RoadRoute
route = record {
  id = 1;
  digest = 2;
  region_id = 3;
  family = depot;
  points = (90000000, 180000000) ∷ (90000000, 180000360) ∷ (90000000, 180000000) ∷ [];
  cumulative_meters = 0 ∷ 720000000000 ∷ 1800000000000 ∷ [];
  length_meters = 1800000000000;
  closed_loop = true;
  stop_meters = none;
  leg_end_indices = some (1 ∷ 2 ∷ []);
}

abbrev assignment : Assignment
assignment = record {
  imei = 51 ∷ 53 ∷ [];
  moving = true;
  region_id = 3;
  route_id = 1;
  route_digest = 2;
  route_pack_digest = 4;
  cursor_meters = 180000000000;
  speed_seed = some 7;
  stop_seed = some 8;
  parked_anchor = none;
}

abbrev start : Model
start =
    model_of route assignment (720000000000 ∷ [])
      (initial_state flat route assignment (720000000000 ∷ []))

route_stops : validated_stops route ≡ some (720000000000 ∷ [])
unfolding validated_stops check_stops proposed_stops leg_stops are_stops
route_stops = refl

start_constructed : new_model flat route assignment none ≡ some start
unfolding new_model validate_route is_assigned construct are_points is_increasing distance
    validated_stops check_stops proposed_stops leg_stops are_stops
start_constructed = refl

-- The device is connected, sends two points 15 s apart, which takes it to the stop, and loses its connection.
abbrev calls : List Operation
calls =
    connects 1000
    ∷ proposes 5000 1000
    ∷ commits 1
    ∷ proposes 20000 16000
    ∷ commits 2
    ∷ disconnects
    ∷ []

east : Bearings flat
east route cursor = omega arith

new_model-checkpoint_example :
    new_model flat route assignment (some (checkpoint (apply_all flat calls start)))
    ≡ some (
        model_of route assignment
          (apply_all flat calls start).stop_meters
          (at_rest (apply_all flat calls start)))
new_model-checkpoint_example =
    new_model-checkpoint flat route assignment none start calls east start_constructed

abbrev meters : List ℕ
meters = 0 ∷ 10 ∷ 20 ∷ 30 ∷ []

segment_at_distance_lem_example :
    (segment : ℕ) × (segment_at_distance meters 20 ≡ some segment)
    × (segment + 1 < length meters)
    × (get_or meters segment 0 ≤ 20)
    × ((segment + 2 ≡ length meters) ⊎ (20 < get_or meters (segment + 1) 0))
segment_at_distance_lem_example = segment_at_distance_lem meters 20 (omega arith) (omega arith)

abbrev proposed : Proposal × Model
proposed = propose_next flat start 5000 1000 (start.state)

start_proposes : propose_point flat 5000 1000 start ≡ some (proposed.0, proposed.1)
unfolding propose_point propose_with propose_moved model_of advanced advance_state advance_loop
    elapsed_ms safe_wall initial_state
start_proposes = refl

start_pending : start.pending ≡ none
unfolding model_of
start_pending = refl

propose_point-commit_example : IsProposed flat 5000 start proposed.0 proposed.1
propose_point-commit_example =
    propose_point-commit flat 5000 1000 start proposed.0 proposed.1 start_pending start_proposes
