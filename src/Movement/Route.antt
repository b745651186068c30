-- ===== src/Movement/Route.antt =====
-- src/simulator/road-movement.js: what is checked of a route and its stops, and the search for the next
-- stop.
use gps_device_virtual_farm.Prelude.{
  ℕ, suc, ◌+◌, ◌-◌, Bool, true, false, not, ◌&&◌, Option, none, some, List, [], ◌∷◌, ltb, leb, ◌==◌,
  if◌then◌else◌, length, get_or, take,
}
use gps_device_virtual_farm.Movement.{Family, depot, delivery, RoadRoute, Geometry}

-- `route.family === 'depot' || route.family === 'delivery'`
abbrev has_leg_stops : Family → Bool
has_leg_stops depot = true
has_leg_stops delivery = true
has_leg_stops _ = false

-- The stops at the legs' ends: the distances of their vertices, or an error.
unfoldable pub leg_stops : RoadRoute → List ℕ → Option (List ℕ)
leg_stops route [] = some []
leg_stops route (i ∷ is) =
    let rest = leg_stops route is in
    if ltb 0 i && ltb i (length route.points - 1)
    then elim rest [ some stops ↦ some (get_or route.cumulative_meters i 0 ∷ stops) | none ↦ none ]
    else none

-- Each stop lies within the route, after the one before it.
unfoldable pub are_stops : ℕ → ℕ → List ℕ → Bool
are_stops length_meters previous [] = true
are_stops length_meters previous (stop ∷ stops) =
    ltb previous stop && (ltb stop length_meters && are_stops length_meters stop stops)

-- `stops` before they are checked; the outer option is the error.
unfoldable pub proposed_stops : RoadRoute → Option (Option (List ℕ))
proposed_stops route = elim route.stop_meters [
  | some stops ↦ some (some stops)
  | none ↦ elim route.leg_end_indices [
    | none ↦ some none
    | some ends ↦
        if has_leg_stops route.family
        then elim (leg_stops route (take (length ends - 1) ends)) [
          | some stops ↦ some (some stops)
          | none ↦ none
        ]
        else some none
  ]
]

-- The last test of `validatedStops`.
unfoldable pub check_stops : ℕ → Option (Option (List ℕ)) → Option (List ℕ)
check_stops length_meters none = none
check_stops length_meters (some none) = some []
check_stops length_meters (some (some stops)) =
    if are_stops length_meters 0 stops then some stops else none

-- `validatedStops(route)`
unfoldable pub validated_stops : RoadRoute → Option (List ℕ)
validated_stops route = check_stops route.length_meters (proposed_stops route)

-- `nextStopIndex(stops, cursorMeters)`
unfoldable pub next_stop_index : List ℕ → ℕ → ℕ
next_stop_index [] cursor = 0
next_stop_index (stop ∷ stops) cursor =
    let rest = next_stop_index stops cursor in if ltb cursor stop then 0 else suc rest

-- Each vertex lies in range, and further along the route than the one before it.
unfoldable pub are_points : List (ℕ × ℕ) → Bool
are_points [] = true
are_points (p ∷ ps) = leb p.0 180000000 && (leb p.1 360000000 && are_points ps)

unfoldable pub is_increasing : List ℕ → Bool
is_increasing [] = true
is_increasing (d ∷ ds) = elim ds [ [] ↦ true | e ∷ es ↦ ltb d e && is_increasing ds ]

unfoldable pub distance : ℕ → ℕ → ℕ
distance a b = (a - b) + (b - a)

-- `validateRoute(route)`: 1e-6 m at the start, 1e-3 m at the end.
unfoldable pub validate_route : Geometry → RoadRoute → Bool
validate_route g route =
    let count = length route.cumulative_meters in
    leb 2 (length route.points)
    && (count == length route.points
        && (ltb 0 route.length_meters
            && (leb (get_or route.cumulative_meters 0 0) 18000
                && (leb
                      (distance (get_or route.cumulative_meters (count - 1) 0) route.length_meters)
                      18000000
                    && (are_points route.points
                        && (is_increasing route.cumulative_meters
                            && not (route.closed_loop && g.has_gap route)))))))
