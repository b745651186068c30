-- ===== src/Movement/Resume.antt =====
-- src/simulator/road-movement.js: a model's checkpoint is always accepted, and resumes at the same place.
use mathlib.Core.Path.{subst}
use gps_device_virtual_farm.Prelude.{
  ℕ, ◌≡◌, sym, ap, ◌∙◌, Bool, true, Option, some, List, arith, if◌then◌else◌,
}
use gps_device_virtual_farm.Prelude.Texts.{same_text_refl}
use gps_device_virtual_farm.Movement.{RoadRoute, Geometry, parked, MoveState}
use gps_device_virtual_farm.Movement.Checkpoint.{
  Assignment, Checkpoint, same_flag, belongs, has_phase, validate_checkpoint, is_assigned,
}
use gps_device_virtual_farm.Movement.Model.{
  Model, resumed_state, model_of, construct, new_model, checkpoint,
}
use gps_device_virtual_farm.Movement.Advance.{IsCoherent}
use gps_device_virtual_farm.Movement.Sound.{
  Bearings, IsSound, validated_stops-are_stops, new_model_lem,
}
use gps_device_virtual_farm.Movement.Calls.{Operation, apply_all, IsSound-apply_all}

same_flag_refl : (b : Bool) → same_flag b b ≡ true
same_flag_refl b = ground arith

belongs-checkpoint :
    (m : Model) (a : Assignment) (route : RoadRoute)
    → m.assignment ≡ a
    → is_assigned a route ≡ true
    → belongs (checkpoint m) a route ≡ true
unfolding belongs is_assigned checkpoint
belongs-checkpoint m a route e h =
    subst (λ b. belongs (checkpoint m) b route ≡ true) e
      (own m route (subst (λ b. is_assigned b route ≡ true) (sym e) h))
  where
    own :
        (m : Model) (route : RoadRoute)
        → is_assigned m.assignment route ≡ true
        → belongs (checkpoint m) m.assignment route ≡ true
    own m route h =
        ground (arith, h, same_text_refl m.assignment.imei, same_flag_refl m.assignment.moving)

-- A device that does not move is parked.
phase_kept :
    (s : MoveState) (closed moves : Bool)
    → has_phase s closed moves ≡ true
    → (if moves then s.phase else parked) ≡ s.phase
unfolding has_phase
phase_kept s closed moves h = ground (arith, h)

validate-checkpoint :
    (route : RoadRoute) (a : Assignment) (stops : List ℕ) (m : Model)
    → is_assigned a route ≡ true
    → IsSound route a stops m
    → validate_checkpoint (checkpoint m) a route stops ≡ true
unfolding validate_checkpoint checkpoint
validate-checkpoint route a stops m assigned h = ground (
  arith,
  belongs-checkpoint m a route h.same_assignment assigned,
  h.state.ranges,
  h.state.stop,
  h.state.phases,
)

-- What a resumed model is to be: of the same route and assignment, in the same state, at rest.
abbrev pub at_rest : Model → MoveState
at_rest m = record (m.state) { current_speed_mps = 0 }

resumed_state-checkpoint :
    (m : Model) (route : RoadRoute) (a : Assignment) (stops : List ℕ)
    → IsCoherent route stops a.moving m.state
    → resumed_state a (checkpoint m) ≡ at_rest m
unfolding resumed_state checkpoint
resumed_state-checkpoint m route a stops h =
    ap (λ p. record (m.state) { current_speed_mps = 0; phase = p })
      (phase_kept m.state route.closed_loop a.moving h.phases)

construct-checkpoint :
    (g : Geometry) (route : RoadRoute) (a : Assignment) (stops : List ℕ) (m : Model)
    → is_assigned a route ≡ true
    → IsSound route a stops m
    → construct g route a (some stops) (some (checkpoint m))
      ≡ some (model_of route a stops (at_rest m))
unfolding construct
construct-checkpoint g route a stops m assigned h =
    rw (validate-checkpoint route a stops m assigned h)
      (ap (λ s. some (model_of route a stops s)) (resumed_state-checkpoint m route a stops h.state))

-- Whatever calls a model has had since it was constructed, afresh or from a checkpoint, its checkpoint is
-- accepted by the constructor for the same route and assignment, and the model that it gives holds the
-- state of the one that was saved: the place, the tours, the phase, the next stop, the rest of a halt and
-- the point sent last, at speed 0. Assumed is that bearings are below 360 degrees.
pub new_model-checkpoint :
    (g : Geometry) (route : RoadRoute) (a : Assignment) (c : Option Checkpoint) (m : Model)
    (calls : List Operation)
    → Bearings g
    → new_model g route a c ≡ some m
    → new_model g route a (some (checkpoint (apply_all g calls m)))
      ≡ some (model_of route a (apply_all g calls m).stop_meters (at_rest (apply_all g calls m)))
unfolding new_model
new_model-checkpoint g route a c m calls bearings e =
    let (valid, assigned, built) = new_model_lem g route a c m bearings e in
    let after = apply_all g calls m in
    let stops = built.stops in
    let ok = validated_stops-are_stops route stops built.valid_stops in
    let sound = IsSound-apply_all g route a stops calls m bearings ok built.sound in
    rw (valid, assigned, built.valid_stops)
      (construct-checkpoint g route a stops after assigned sound
        ∙ ap (λ q. some (model_of route a q (at_rest after))) (sym sound.same_stops))
