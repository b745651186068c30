-- ===== src/Movement/Sound.antt =====
-- src/simulator/road-movement.js: the invariant of a movement model: what a checkpoint is checked for holds
-- of its state, and of the state that a pending point brings.
use mathlib.Core.Path.{subst}
use gps_device_virtual_farm.Prelude.{
  ℕ, ◌<◌, ◌≡◌, refl, inl, inr, true, Option, none, some, List, [], ◌∷◌, arith, Bool-cases,
  Option-cases, some_injective,
}
use gps_device_virtual_farm.Movement.{RoadRoute, Geometry, MoveState}
use gps_device_virtual_farm.Movement.Checkpoint.{
  Assignment, Checkpoint, in_range, has_next_stop, has_phase, validate_checkpoint, is_assigned,
}
use gps_device_virtual_farm.Movement.Route.{
  are_stops, check_stops, validated_stops, next_stop_index, validate_route,
}
use gps_device_virtual_farm.Movement.Model.{
  Pending, Model, initial_state, resumed_state, model_of, construct, new_model,
}
use gps_device_virtual_farm.Movement.Advance.{IsCoherent, in_range_iff}

-- A bearing is below 360 degrees.
abbrev pub Bearings : Geometry → Type 0
Bearings g = (route : RoadRoute) (cursor : ℕ) → (g.point_at route cursor).course < 360000

abbrev pub AllPending : (MoveState → Type 0) → Option Pending → Type 0
AllPending P none = Unit
AllPending P (some p) = P p.next

-- The model is of the route and the assignment, and its states are coherent.
pub record IsSound (route : RoadRoute) (a : Assignment) (stops : List ℕ) (m : Model) : Type 0 where
  pub same_route : m.route ≡ route
  pub same_assignment : m.assignment ≡ a
  pub same_stops : m.stop_meters ≡ stops
  pub state : IsCoherent route stops a.moving m.state
  pub pending : AllPending (IsCoherent route stops a.moving) m.pending

check_stops-are_stops :
    (len : ℕ) (proposed : Option (Option (List ℕ))) (stops : List ℕ)
    → check_stops len proposed ≡ some stops
    → are_stops len 0 stops ≡ true
unfolding check_stops are_stops
check_stops-are_stops len none stops h = absurd (ground (arith, h))
check_stops-are_stops len (some none) stops h = ground (arith, h)
check_stops-are_stops len (some (some proposed)) stops h = ground (arith, h)

pub validated_stops-are_stops :
    (route : RoadRoute) (stops : List ℕ)
    → validated_stops route ≡ some stops
    → are_stops route.length_meters 0 stops ≡ true
unfolding validated_stops
validated_stops-are_stops route stops h = check_stops-are_stops route.length_meters _ stops h

has_next_stop-next_stop_index :
    (stops : List ℕ) (cursor : ℕ) → has_next_stop cursor (next_stop_index stops cursor) stops ≡ true
unfolding has_next_stop next_stop_index
has_next_stop-next_stop_index [] cursor = refl
has_next_stop-next_stop_index (x ∷ xs) cursor =
    ground (arith, has_next_stop-next_stop_index xs cursor)

IsCoherent-initial_state :
    (g : Geometry) (route : RoadRoute) (a : Assignment) (stops : List ℕ)
    → Bearings g
    → is_assigned a route ≡ true
    → IsCoherent route stops a.moving (initial_state g route a stops)
unfolding initial_state is_assigned has_phase
IsCoherent-initial_state g route a stops bearings h = record {
  ranges =
      in_range_iff (initial_state g route a stops) route (ground (arith, h)) (omega arith)
        (bearings _ _) (omega arith) (omega arith);
  stop = has_next_stop-next_stop_index stops a.cursor_meters;
  phases = ground arith;
}

IsCoherent-resumed_state :
    (route : RoadRoute) (a : Assignment) (stops : List ℕ) (c : Checkpoint)
    → validate_checkpoint c a route stops ≡ true
    → IsCoherent route stops a.moving (resumed_state a c)
unfolding resumed_state validate_checkpoint has_phase in_range
IsCoherent-resumed_state route a stops c h = record {
  ranges = ground (arith, h);
  stop = ground (arith, h);
  phases = ground (arith, h);
}

-- What the constructor gives is sound.
pub record IsConstructed (route : RoadRoute) (a : Assignment) (m : Model) : Type 0 where
  pub stops : List ℕ
  pub valid_stops : validated_stops route ≡ some stops
  pub sound : IsSound route a stops m

IsSound-model_of :
    (route : RoadRoute) (a : Assignment) (stops : List ℕ) (s : MoveState)
    → IsCoherent route stops a.moving s
    → IsSound route a stops (model_of route a stops s)
unfolding model_of
IsSound-model_of route a stops s h = record {
  same_route = refl;
  same_assignment = refl;
  same_stops = refl;
  state = h;
  pending = tt;
}

IsSound-construct :
    (g : Geometry) (route : RoadRoute) (a : Assignment) (stops : List ℕ) (c : Option Checkpoint)
    (m : Model)
    → Bearings g
    → is_assigned a route ≡ true
    → construct g route a (some stops) c ≡ some m
    → IsSound route a stops m
unfolding construct
IsSound-construct g route a stops none m bearings h e =
    subst (IsSound route a stops) (some_injective e)
      (IsSound-model_of route a stops _ (IsCoherent-initial_state g route a stops bearings h))
IsSound-construct g route a stops (some c) m bearings h e =
    elim (Bool-cases (validate_checkpoint c a route stops)) [
      | inl valid ↦
          subst (IsSound route a stops) (some_injective (rw valid at e))
            (IsSound-model_of route a stops _ (IsCoherent-resumed_state route a stops c valid))
      | inr bad ↦ absurd (ground (arith, e, bad))
    ]

pub new_model_lem :
    (g : Geometry) (route : RoadRoute) (a : Assignment) (c : Option Checkpoint) (m : Model)
    → Bearings g
    → new_model g route a c ≡ some m
    → (validate_route g route ≡ true) × (is_assigned a route ≡ true) × IsConstructed route a m
unfolding new_model
new_model_lem g route a c m bearings e =
    let valid : validate_route g route ≡ true = ground (arith, e) in
    let assigned : is_assigned a route ≡ true = ground (arith, e) in
    let built : construct g route a (validated_stops route) c ≡ some m = ground (arith, e) in
    elim (Option-cases (validated_stops route)) [
      | inl bad ↦ absurd (unfold construct in ground (arith, bad, built))
      | inr (stops, ok) ↦ (
        valid,
        assigned,
        record {
          stops = stops;
          valid_stops = ok;
          sound = IsSound-construct g route a stops c m bearings assigned (rw ok at built);
        },
      )
    ]
