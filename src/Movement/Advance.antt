-- ===== src/Movement/Advance.antt =====
-- src/simulator/road-movement.js: the motion keeps what a checkpoint is checked for.
use gps_device_virtual_farm.Prelude.{
  ℕ, zero, suc, ◌+◌, ◌-◌, ◌*◌, ◌%◌, ◌≤◌, ◌<◌, min, max, ◌≡◌, refl, inl, inr, Bool, true, false,
  ◌&&◌, Option, none, some, List, [], ◌∷◌, arith, leb, ◌==◌, holds_if, holds_cases, Option-cases,
  get_elem?,
}
use gps_device_virtual_farm.Movement.{
  RoadRoute, Geometry, moving, dwelling, is_phase, MoveState, fastest, clamp, target_speed,
  new_speed, dwell, reach_stop, reach_end, drive, advance_loop, advance_state,
}
use gps_device_virtual_farm.Movement.Checkpoint.{latest_time, in_range, has_next_stop, has_phase}
use gps_device_virtual_farm.Movement.Route.{are_stops}

-- What a checkpoint is checked for, of a state.
pub record IsCoherent (route : RoadRoute) (stops : List ℕ) (moves : Bool) (s : MoveState)
    : Type 0 where
  pub ranges : in_range s route ≡ true
  pub stop : has_next_stop s.cursor_meters s.next_stop_index stops ≡ true
  pub phases : has_phase s route.closed_loop moves ≡ true

-- The numbers of a state in range.
pub in_range_iff :
    (s : MoveState) (route : RoadRoute)
    → s.cursor_meters ≤ route.length_meters
    → s.current_speed_mps ≤ fastest
    → s.heading_degrees < 360000
    → s.last_queued_wall_utc_ms ≤ latest_time
    → s.dwell_remaining_ms ≤ 60000
    → in_range s route ≡ true
unfolding in_range
in_range_iff s route a b c d e = ground (arith, a, b, c, d, e)

pub in_range_lem :
    (s : MoveState) (route : RoadRoute)
    → in_range s route ≡ true
    → (s.cursor_meters ≤ route.length_meters)
      × (s.current_speed_mps ≤ fastest)
      × (s.heading_degrees < 360000)
      × (s.last_queued_wall_utc_ms ≤ latest_time)
      × (s.dwell_remaining_ms ≤ 60000)
unfolding in_range
in_range_lem s route h = ground (arith, h)

-- A stop lies within the route.
are_stops-get :
    (len previous i x : ℕ) (stops : List ℕ)
    → are_stops len previous stops ≡ true
    → get_elem? stops i ≡ some x
    → (previous < x) × (x < len)
unfolding are_stops
are_stops-get len previous i x [] h e = absurd (ground (arith, e))
are_stops-get len previous zero x (y ∷ ys) h e = ground (arith, h, e)
are_stops-get len previous (suc i) x (y ∷ ys) h e =
    let rest : are_stops len y ys ≡ true = ground (arith, h) in
    let (above, below) = are_stops-get len y i x ys rest e in ground (arith, h, above, below)

-- The stop after a stop lies beyond it, and the first one beyond the start.
next_stop_after :
    (len previous i x : ℕ) (stops : List ℕ)
    → are_stops len previous stops ≡ true
    → get_elem? stops i ≡ some x
    → has_next_stop x (suc i) stops ≡ true
unfolding are_stops has_next_stop
next_stop_after len previous i x [] h e = absurd (ground (arith, e))
next_stop_after len previous zero x (y ∷ []) h e = refl
next_stop_after len previous zero x (y ∷ z ∷ zs) h e = ground (arith, h, e)
next_stop_after len previous (suc i) x (y ∷ ys) h e =
    let rest : are_stops len y ys ≡ true = ground (arith, h) in
    has_next_stop-suc x (suc i) y ys (next_stop_after len y i x ys rest e)
  where
    has_next_stop-suc :
        (cursor i y : ℕ) (ys : List ℕ)
        → has_next_stop cursor i ys ≡ true
        → has_next_stop cursor (suc i) (y ∷ ys) ≡ true
    has_next_stop-suc cursor i y ys h = ground (arith, h)

has_next_stop-start : (stops : List ℕ) → has_next_stop 0 0 stops ≡ true
unfolding has_next_stop
has_next_stop-start [] = refl
has_next_stop-start (y ∷ ys) = ground arith

new_speed_le :
    (old target step_ms : ℕ)
    → old ≤ fastest
    → target ≤ fastest
    → new_speed old target step_ms ≤ fastest
unfolding new_speed
new_speed_le old target step_ms h k = omega arith

target_speed_le :
    (g : Geometry) (route : RoadRoute) (cursor seed : ℕ)
    → target_speed g route cursor seed ≤ fastest
unfolding target_speed clamp
target_speed_le g route cursor seed = omega arith

IsCoherent-dwell :
    (route : RoadRoute) (stops : List ℕ) (moves : Bool) (step_ms : ℕ) (s : MoveState)
    → is_phase s.phase dwelling ≡ true
    → IsCoherent route stops moves s
    → IsCoherent route stops moves (dwell step_ms s)
unfolding dwell in_range has_phase
IsCoherent-dwell route stops moves step_ms s d h = record {
  ranges = ground (arith, h.ranges);
  stop = h.stop;
  phases = ground (arith, h.phases, d);
}

-- The arrival at a stop, and at the route's end.
IsCoherent-reach_stop :
    (route : RoadRoute) (stops : List ℕ) (moves : Bool) (seed x : ℕ) (s : MoveState)
    → are_stops route.length_meters 0 stops ≡ true
    → get_elem? stops s.next_stop_index ≡ some x
    → is_phase s.phase moving ≡ true
    → in_range s route ≡ true
    → has_phase s route.closed_loop moves ≡ true
    → IsCoherent route stops moves (reach_stop seed x s)
unfolding reach_stop has_phase
IsCoherent-reach_stop route stops moves seed x s ok e m h k =
    let (cursor, speed, heading, wall, dwell) = in_range_lem s route h in
    let within = are_stops-get route.length_meters 0 s.next_stop_index x stops ok e in
    let seconds : seed % 11 < 11 = omega arith in
    record {
      ranges =
          in_range_iff (reach_stop seed x s) route (omega (arith, within)) (omega arith) heading
            wall (omega (arith, seconds));
      stop = next_stop_after route.length_meters 0 s.next_stop_index x stops ok e;
      phases = ground (arith, k, m);
    }

-- Without a next stop the cursor is not read.
has_next_stop-none :
    (c d i : ℕ) (stops : List ℕ)
    → get_elem? stops i ≡ none
    → has_next_stop c i stops ≡ true
    → has_next_stop d i stops ≡ true
unfolding has_next_stop
has_next_stop-none c d i stops e h = ground (arith, h, e)

has_next_stop-some :
    (c d i x : ℕ) (stops : List ℕ)
    → get_elem? stops i ≡ some x
    → has_next_stop c i stops ≡ true
    → d ≤ max c x
    → has_next_stop d i stops ≡ true
unfolding has_next_stop
has_next_stop-some c d i x stops e h k = ground (arith, h, e, k)

IsCoherent-reach_end :
    (route : RoadRoute) (stops : List ℕ) (moves : Bool) (s : MoveState)
    → is_phase s.phase moving ≡ true
    → IsCoherent route stops moves s
    → get_elem? stops s.next_stop_index ≡ none
    → IsCoherent route stops moves (reach_end route s)
unfolding reach_end has_phase
IsCoherent-reach_end route stops moves s m h e =
    let (cursor, speed, heading, wall, dwell) = in_range_lem s route h.ranges in
    holds_cases (IsCoherent route stops moves) route.closed_loop
      (λ closed. record {
        ranges = in_range_iff _ route (omega arith) (omega arith) heading wall dwell;
        stop = has_next_stop-start stops;
        phases = ground (arith, h.phases, m, closed);
      })
      (λ ends. record {
        ranges = in_range_iff _ route (omega arith) (omega arith) heading wall dwell;
        stop =
            has_next_stop-none s.cursor_meters route.length_meters s.next_stop_index stops e h.stop;
        phases = ground (arith, h.phases, m, ends);
      })

IsCoherent-drive :
    (g : Geometry) (route : RoadRoute) (stops : List ℕ) (moves : Bool)
    (speed_seed stop_seed step_ms : ℕ) (s : MoveState)
    → are_stops route.length_meters 0 stops ≡ true
    → is_phase s.phase moving ≡ true
    → IsCoherent route stops moves s
    → IsCoherent route stops moves (drive g route stops speed_seed stop_seed step_ms s)
unfolding drive
IsCoherent-drive g route stops moves speed_seed stop_seed step_ms s ok m h =
    let (cursor, slow, heading, wall, dwell) = in_range_lem s route h.ranges in
    let target = target_speed g route s.cursor_meters speed_seed in
    let speed = new_speed s.current_speed_mps target step_ms in
    let fast =
      new_speed_le s.current_speed_mps target step_ms slow
        (target_speed_le g route s.cursor_meters speed_seed) in
    let traveled_meters = (s.current_speed_mps + speed) * step_ms in
    let to_end = route.length_meters - s.cursor_meters in
    elim (Option-cases (get_elem? stops s.next_stop_index)) [
      | inl e ↦
          let moved = record s {
            cursor_meters = s.cursor_meters + min traveled_meters to_end;
            current_speed_mps = speed;
          } in
          let kept : IsCoherent route stops moves moved = record {
            ranges = in_range_iff moved route (omega arith) fast heading wall dwell;
            stop =
                has_next_stop-none s.cursor_meters (s.cursor_meters + min traveled_meters to_end)
                  s.next_stop_index stops e h.stop;
            phases = unfold has_phase in h.phases;
          } in
          rw (e, drive)
            (holds_if (IsCoherent route stops moves) (leb to_end traveled_meters)
              (IsCoherent-reach_end route stops moves moved m kept e) kept)
      | inr (x, e) ↦
          let to_stop = x - s.cursor_meters in
          let go = min traveled_meters (min to_stop to_end) in
          let moved = record s {
            cursor_meters = s.cursor_meters + go;
            current_speed_mps = speed;
          } in
          let kept : IsCoherent route stops moves moved = record {
            ranges = in_range_iff moved route (omega arith) fast heading wall dwell;
            stop =
                has_next_stop-some s.cursor_meters (s.cursor_meters + go) s.next_stop_index x stops
                  e h.stop (omega arith);
            phases = unfold has_phase in h.phases;
          } in
          rw (e, drive)
            (holds_cases (IsCoherent route stops moves)
              (leb to_stop traveled_meters && leb to_stop to_end)
              (λ arrives.
                IsCoherent-reach_stop route stops moves stop_seed x moved ok e m kept.ranges
                  kept.phases)
              (λ goes.
                holds_cases (IsCoherent route stops moves) (leb to_end traveled_meters)
                  (λ ends. absurd (
                    stop_first x s.cursor_meters route.length_meters traveled_meters
                      (are_stops-get route.length_meters 0 s.next_stop_index x stops ok e).1 goes
                      ends))
                  (λ e. kept)))
    ]
  where
    stop_first :
        (x cursor len traveled : ℕ)
        → x < len
        → (leb (x - cursor) traveled && leb (x - cursor) (len - cursor)) ≡ false
        → leb (len - cursor) traveled ≡ true
        → ⊥
    stop_first x cursor len traveled h goes ends = ground (arith, h, goes, ends)

-- The loop ends within its fuel, in a state that is coherent.
abbrev pub Arrives : RoadRoute → List ℕ → Bool → Option MoveState → Type 0
Arrives route stops moves result =
    (s : MoveState) × (result ≡ some s) × IsCoherent route stops moves s

IsCoherent-advance_loop :
    (g : Geometry) (route : RoadRoute) (stops : List ℕ) (moves : Bool)
    (speed_seed stop_seed fuel remaining : ℕ) (s : MoveState)
    → are_stops route.length_meters 0 stops ≡ true
    → remaining ≤ 1000 * fuel
    → IsCoherent route stops moves s
    → Arrives route stops moves (advance_loop g route stops speed_seed stop_seed fuel remaining s)
unfolding advance_loop
IsCoherent-advance_loop g route stops moves speed_seed stop_seed zero remaining s ok f h =
    let done : remaining ≡ 0 = omega (arith, f) in (s, rw done refl, h)
IsCoherent-advance_loop g route stops moves speed_seed stop_seed (suc fuel) remaining s ok f h =
    let less : remaining - min remaining 1000 ≤ 1000 * fuel = omega (arith, f) in
    holds_if (Arrives route stops moves) (remaining == 0) (s, refl, h)
      (holds_cases (Arrives route stops moves) (is_phase s.phase dwelling)
        (λ dwells.
          IsCoherent-advance_loop g route stops moves speed_seed stop_seed fuel _ _ ok less
            (IsCoherent-dwell route stops moves (min remaining 1000) s dwells h))
        (λ _.
          holds_cases (Arrives route stops moves) (is_phase s.phase moving)
            (λ m.
              IsCoherent-advance_loop g route stops moves speed_seed stop_seed fuel _ _ ok less (
                IsCoherent-drive g route stops moves speed_seed stop_seed (min remaining 1000) s ok
                  m h))
            (λ _. (s, refl, h))))

pub IsCoherent-advance_state :
    (g : Geometry) (route : RoadRoute) (stops : List ℕ) (moves : Bool)
    (speed_seed stop_seed elapsed : ℕ) (s : MoveState)
    → are_stops route.length_meters 0 stops ≡ true
    → elapsed ≤ 15000
    → IsCoherent route stops moves s
    → Arrives route stops moves (advance_state g route stops speed_seed stop_seed elapsed s)
unfolding advance_state
IsCoherent-advance_state g route stops moves speed_seed stop_seed elapsed s ok f h =
    IsCoherent-advance_loop g route stops moves speed_seed stop_seed 15 elapsed s ok f h
