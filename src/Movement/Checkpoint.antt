-- ===== src/Movement/Checkpoint.antt =====
-- src/simulator/road-movement.js: a device's assignment and its checkpoint, and what the constructor checks
-- of them.
use gps_device_virtual_farm.Prelude.{
  ℕ, ◌+◌, Bool, true, false, not, ◌&&◌, Option, none, some, List, ltb, leb, ◌==◌, length, get_elem?,
}
use gps_device_virtual_farm.Prelude.Texts.{same_text}
use gps_device_virtual_farm.Movement.{RoadRoute, parked, terminal, is_phase, MoveState, fastest}

-- What the allocator gives a device.
pub record Assignment : Type 0 where
  pub imei : List ℕ
  pub moving : Bool
  pub region_id : ℕ
  pub route_id : ℕ
  pub route_digest : ℕ
  pub route_pack_digest : ℕ
  pub cursor_meters : ℕ
  pub speed_seed : Option ℕ
  pub stop_seed : Option ℕ
  pub parked_anchor : Option ℕ

-- What `checkpoint()` returns. `state` has the ten fields of the state.
pub record Checkpoint : Type 0 where
  pub schema_version : ℕ
  pub imei : List ℕ
  pub moving : Bool
  pub region_id : ℕ
  pub route_id : ℕ
  pub route_digest : ℕ
  pub route_pack_digest : ℕ
  pub state : MoveState
  pub speed_seed : ℕ
  pub stop_seed : ℕ
  pub parked_anchor : Option ℕ

-- `===` on flags
abbrev pub same_flag : Bool → Bool → Bool
same_flag true b = b
same_flag false b = not b

-- The latest time of a Date, 8.64e15 ms.
abbrev pub latest_time : ℕ
latest_time = 8640000000000000

-- The tests of `validateCheckpoint` on what the checkpoint belongs to, on the ranges of its numbers, on
-- its next stop and on its phase.
unfoldable pub belongs : Checkpoint → Assignment → RoadRoute → Bool
belongs c a route =
    c.schema_version == 1
    && (same_text c.imei a.imei
        && (same_flag c.moving a.moving
            && (c.region_id == a.region_id
                && (c.route_id == route.id
                    && (c.route_digest == route.digest
                        && c.route_pack_digest == a.route_pack_digest)))))

unfoldable pub in_range : MoveState → RoadRoute → Bool
in_range s route =
    leb s.cursor_meters route.length_meters
    && (leb s.current_speed_mps fastest
        && (ltb s.heading_degrees 360000
            && (leb s.last_queued_wall_utc_ms latest_time && leb s.dwell_remaining_ms 60000)))

unfoldable pub has_next_stop : ℕ → ℕ → List ℕ → Bool
has_next_stop cursor index stops = elim (get_elem? stops index) [
  | none ↦ index == length stops
  | some stop ↦ leb cursor (stop + 18000000)
]

unfoldable pub has_phase : MoveState → Bool → Bool → Bool
has_phase s closed_loop moves =
    not (closed_loop && is_phase s.phase terminal)
    && (not (not closed_loop && ltb 0 s.completed_tours)
        && (not (not moves && not (is_phase s.phase parked))
            && not (moves && is_phase s.phase parked)))

-- `validateCheckpoint(checkpoint, assignment, route, stopMeters)`
unfoldable pub validate_checkpoint : Checkpoint → Assignment → RoadRoute → List ℕ → Bool
validate_checkpoint c a route stops =
    belongs c a route
    && (in_range c.state route
        && (has_next_stop c.state.cursor_meters c.state.next_stop_index stops
            && has_phase c.state route.closed_loop a.moving))

-- The constructor's tests of the assignment.
unfoldable pub is_assigned : Assignment → RoadRoute → Bool
is_assigned a route =
    a.route_id == route.id
    && (a.route_digest == route.digest
        && (a.region_id == route.region_id && leb a.cursor_meters route.length_meters))
