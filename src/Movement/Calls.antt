-- ===== src/Movement/Calls.antt =====
-- src/simulator/road-movement.js: the calls of a movement model keep its invariant.
use mathlib.Core.Path.{subst}
use gps_device_virtual_farm.Prelude.{
  ℕ, ◌≤◌, ◌<◌, ◌≡◌, refl, sym, Bool, true, false, not, ◌&&◌, Option, none, some, List, [], ◌∷◌,
  arith, ltb, leb, ◌==◌, holds_if, holds_cases,
}
use gps_device_virtual_farm.Movement.{
  RoadPoint, RoadRoute, Geometry, advance_state, parked, terminal, is_phase, MoveState,
}
use gps_device_virtual_farm.Movement.Checkpoint.{Assignment, latest_time, in_range, has_phase}
use gps_device_virtual_farm.Movement.Route.{are_stops}
use gps_device_virtual_farm.Movement.Model.{
  GpsPoint, Proposal, Pending, Model, safe_wall, elapsed_ms, advanced, still, turn, remember,
  propose_next, propose_moved, propose_with, propose_point, commit_with, commit_queued_point,
  on_transport_available, on_transport_unavailable,
}
use gps_device_virtual_farm.Movement.Advance.{IsCoherent, Arrives, IsCoherent-advance_state}
use gps_device_virtual_farm.Movement.Sound.{Bearings, AllPending, IsSound}

-- The calls of a model; one that throws changes nothing.
pub data Operation : Type 0 where
  proposes : ℕ → ℕ → Operation
  commits : ℕ → Operation
  connects : ℕ → Operation
  disconnects : Operation

unfoldable pub or_unchanged : Option Model → Model → Model
or_unchanged none m = m
or_unchanged (some after) m = after

unfoldable pub or_unproposed : Option (Proposal × Model) → Model → Model
or_unproposed none m = m
or_unproposed (some p) m = p.1

unfoldable pub apply : Geometry → Operation → Model → Model
apply g (proposes wall monotonic) m = or_unproposed (propose_point g wall monotonic m) m
apply g (commits token) m = or_unchanged (commit_queued_point token m) m
apply g (connects monotonic) m = on_transport_available monotonic m
apply g disconnects m = on_transport_unavailable m

unfoldable pub apply_all : Geometry → List Operation → Model → Model
apply_all g [] m = m
apply_all g (o ∷ os) m = apply_all g os (apply g o m)

-- The calls keep a model sound.
IsCoherent-still :
    (route : RoadRoute) (stops : List ℕ) (moves available : Bool) (s : MoveState)
    → IsCoherent route stops moves s
    → IsCoherent route stops moves (still available s)
unfolding still in_range has_phase
IsCoherent-still route stops moves true s h = h
IsCoherent-still route stops moves false s h = record {
  ranges = ground (arith, h.ranges);
  stop = h.stop;
  phases = h.phases;
}

IsCoherent-turn :
    (route : RoadRoute) (stops : List ℕ) (moves : Bool) (point : RoadPoint) (s : MoveState)
    → point.course < 360000
    → IsCoherent route stops moves s
    → IsCoherent route stops moves (turn point s)
unfolding turn in_range has_phase
IsCoherent-turn route stops moves point s p h =
    holds_if (IsCoherent route stops moves) (ltb 0 s.current_speed_mps)
      (record { ranges = ground (arith, h.ranges, p); stop = h.stop; phases = h.phases }) h

IsCoherent-remember :
    (route : RoadRoute) (stops : List ℕ) (moves : Bool) (point : GpsPoint) (wall : ℕ)
    (s : MoveState)
    → wall ≤ latest_time
    → IsCoherent route stops moves s
    → IsCoherent route stops moves (remember point wall s)
unfolding remember in_range has_phase
IsCoherent-remember route stops moves point wall s p h = record {
  ranges = ground (arith, h.ranges, p);
  stop = h.stop;
  phases = h.phases;
}

IsSound-propose_next :
    (g : Geometry) (route : RoadRoute) (a : Assignment) (stops : List ℕ) (m : Model)
    (wall monotonic : ℕ) (moved : MoveState)
    → Bearings g
    → wall ≤ latest_time
    → IsSound route a stops m
    → IsCoherent route stops a.moving moved
    → IsSound route a stops (propose_next g m wall monotonic moved).1
unfolding propose_next
IsSound-propose_next g route a stops m wall monotonic moved bearings w h k = record {
  same_route = h.same_route;
  same_assignment = h.same_assignment;
  same_stops = h.same_stops;
  state = h.state;
  pending = IsCoherent-remember route stops a.moving _ wall _ w (
      IsCoherent-turn route stops a.moving _ _ (bearings _ _)
        (IsCoherent-still route stops a.moving m.available moved k));
}

elapsed_ms_le : (m : Model) (monotonic : ℕ) → elapsed_ms m monotonic ≤ 15000
unfolding elapsed_ms
elapsed_ms_le m monotonic = ground arith

IsCoherent-advanced :
    (g : Geometry) (route : RoadRoute) (a : Assignment) (stops : List ℕ) (m : Model) (elapsed : ℕ)
    → are_stops route.length_meters 0 stops ≡ true
    → elapsed ≤ 15000
    → IsSound route a stops m
    → Arrives route stops a.moving (advanced g m elapsed)
unfolding advanced
IsCoherent-advanced g route a stops m elapsed ok e h =
    let arrives =
      IsCoherent-advance_state g route stops a.moving m.speed_seed m.stop_seed elapsed m.state ok e
        h.state in
    holds_if (Arrives route stops a.moving)
      (m.available
        && (not (is_phase m.state.phase parked) && not (is_phase m.state.phase terminal)))
      (subst
        (λ r.
          Arrives route stops a.moving
            (advance_state g r m.stop_meters m.speed_seed m.stop_seed elapsed m.state))
        (sym h.same_route)
        (subst
          (λ q.
            Arrives route stops a.moving
              (advance_state g route q m.speed_seed m.stop_seed elapsed m.state))
          (sym h.same_stops) arrives))
      (m.state, refl, h.state)

IsSound-propose_with :
    (g : Geometry) (route : RoadRoute) (a : Assignment) (stops : List ℕ) (m : Model)
    (wall monotonic : ℕ) (pending : Option Pending)
    → Bearings g
    → are_stops route.length_meters 0 stops ≡ true
    → IsSound route a stops m
    → IsSound route a stops (or_unproposed (propose_with g wall monotonic m pending) m)
unfolding propose_with propose_moved or_unproposed
IsSound-propose_with g route a stops m wall monotonic (some p) bearings ok h = h
IsSound-propose_with g route a stops m wall monotonic none bearings ok h =
    let safe = safe_wall wall m.state.last_queued_wall_utc_ms in
    holds_cases (λ r. IsSound route a stops (or_unproposed r m))
      (leb wall latest_time && leb safe latest_time)
      (λ intime.
        let (moved, arrives, k) =
          IsCoherent-advanced g route a stops m (elapsed_ms m monotonic) ok
            (elapsed_ms_le m monotonic) h in
        subst (λ o. IsSound route a stops (or_unproposed (propose_moved g m safe monotonic o) m))
          (sym arrives)
          (IsSound-propose_next g route a stops m safe monotonic moved bearings
            (ground (arith, intime)) h k))
      (λ late. h)

IsSound-commit_with :
    (route : RoadRoute) (a : Assignment) (stops : List ℕ) (m : Model) (token : ℕ)
    (pending : Option Pending)
    → IsSound route a stops m
    → AllPending (IsCoherent route stops a.moving) pending
    → IsSound route a stops (or_unchanged (commit_with token m pending) m)
unfolding commit_with or_unchanged
IsSound-commit_with route a stops m token none h k = h
IsSound-commit_with route a stops m token (some p) h k =
    holds_if (λ r. IsSound route a stops (or_unchanged r m)) (p.proposal.token == token)
      (record {
        same_route = h.same_route;
        same_assignment = h.same_assignment;
        same_stops = h.same_stops;
        state = k;
        pending = tt;
      })
      h

pub IsSound-apply :
    (g : Geometry) (route : RoadRoute) (a : Assignment) (stops : List ℕ) (o : Operation) (m : Model)
    → Bearings g
    → are_stops route.length_meters 0 stops ≡ true
    → IsSound route a stops m
    → IsSound route a stops (apply g o m)
unfolding apply propose_point commit_queued_point on_transport_available on_transport_unavailable
    in_range has_phase
IsSound-apply g route a stops (proposes wall monotonic) m bearings ok h =
    IsSound-propose_with g route a stops m wall monotonic m.pending bearings ok h
IsSound-apply g route a stops (commits token) m bearings ok h =
    IsSound-commit_with route a stops m token m.pending h h.pending
IsSound-apply g route a stops (connects monotonic) m bearings ok h = record {
  same_route = h.same_route;
  same_assignment = h.same_assignment;
  same_stops = h.same_stops;
  state = h.state;
  pending = tt;
}
IsSound-apply g route a stops disconnects m bearings ok h = record {
  same_route = h.same_route;
  same_assignment = h.same_assignment;
  same_stops = h.same_stops;
  state = record {
    ranges = ground (arith, h.state.ranges);
    stop = h.state.stop;
    phases = h.state.phases;
  };
  pending = tt;
}

pub IsSound-apply_all :
    (g : Geometry) (route : RoadRoute) (a : Assignment) (stops : List ℕ) (os : List Operation)
    (m : Model)
    → Bearings g
    → are_stops route.length_meters 0 stops ≡ true
    → IsSound route a stops m
    → IsSound route a stops (apply_all g os m)
unfolding apply_all
IsSound-apply_all g route a stops [] m bearings ok h = h
IsSound-apply_all g route a stops (o ∷ os) m bearings ok h =
    IsSound-apply_all g route a stops os (apply g o m) bearings ok
      (IsSound-apply g route a stops o m bearings ok h)
