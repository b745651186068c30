-- ===== src/Allocator/Examples.antt =====
-- The theorems on src/simulator/road-allocator.js at concrete routes.
use gps_device_virtual_farm.Prelude.{ℕ, ◌≡◌, refl, some, [], ◌∷◌, arith}
use gps_device_virtual_farm.Prelude.Sets.{has}
use gps_device_virtual_farm.Allocator.{RouteState, gcd, coprime_stride, take_route_slot}
use gps_device_virtual_farm.Allocator.Stride.{coprime_stride-coprime}
use gps_device_virtual_farm.Allocator.Slots.{Takes, take_route_slot_lem}

coprime_stride-coprime_example :
    (stride : ℕ) × (coprime_stride 12 ≡ some stride) × (gcd stride 12 ≡ 1)
coprime_stride-coprime_example = coprime_stride-coprime 12

-- The stride of 12 is 7.
twelve : coprime_stride 12 ≡ some 7
unfolding coprime_stride gcd
twelve = refl

-- A route of 12 slots, of which the two that the search meets first are used.
abbrev route : RouteState
route = record {
  capacity = 12;
  used_slots = 5 ∷ 0 ∷ [];
  next_slot_ordinal = 0;
  slot_start = 5;
  slot_stride = 7;
}

route-coprime : gcd 7 12 ≡ 1
unfolding gcd
route-coprime = refl

take_route_slot_lem_example : Takes route (take_route_slot route)
take_route_slot_lem_example = take_route_slot_lem route route-coprime (omega arith)

take_route_slot_third :
    take_route_slot route
    ≡ some (7, record route { used_slots = 7 ∷ 5 ∷ 0 ∷ []; next_slot_ordinal = 3 })
unfolding take_route_slot has
take_route_slot_third = refl
