-- ===== src/Allocator.antt =====
-- src/simulator/road-allocator.js: the slots of a route, on which moving devices start apart from one
-- another. A slot stands for its place on the route, `(slot + 0.5) * lengthMeters / capacity`.
pub mod Stride
pub mod Slots
mod Examples
use gps_device_virtual_farm.Prelude.{
  ℕ, zero, suc, ◌+◌, ◌*◌, ◌/◌, ◌%◌, Bool, false, ◌||◌, Option, none, some, List, [], ◌∷◌, leb, ◌==◌,
  if◌then◌else◌,
}
use gps_device_virtual_farm.Prelude.Sets.{has}

-- `gcd(a, b)`, on fuel: the second number falls in each round.
pub gcd_loop : ℕ → ℕ → ℕ → ℕ
gcd_loop zero a b = a
gcd_loop (suc fuel) a b = let rest = gcd_loop fuel b (a % b) in if b == 0 then a else rest

unfoldable pub gcd : ℕ → ℕ → ℕ
unfolding gcd_loop
gcd a b = gcd_loop (b + 1) a b

-- The loop of `coprimeStride`, on fuel. `none` would mean that the fuel ran out.
pub stride_loop : ℕ → ℕ → ℕ → Option ℕ
stride_loop zero capacity stride = none
stride_loop (suc fuel) capacity stride =
    let rest = stride_loop fuel capacity (stride + 1) in
    if gcd stride capacity == 1 then some stride else rest

-- `coprimeStride(capacity)`
unfoldable pub coprime_stride : ℕ → Option ℕ
unfolding stride_loop
coprime_stride capacity =
    if leb capacity 1 then some 1 else stride_loop capacity capacity (capacity / 2 + 1)

-- What `takeRouteSlot` uses of a route's state. `usedSlots` is a set.
pub record RouteState : Type 0 where
  pub capacity : ℕ
  pub used_slots : List ℕ
  pub next_slot_ordinal : ℕ
  pub slot_start : ℕ
  pub slot_stride : ℕ

-- The loop of `takeRouteSlot`, with the attempts that are left; `none` is the error at its end.
pub take_slot_loop : ℕ → RouteState → Option (ℕ × RouteState)
take_slot_loop zero state = none
take_slot_loop (suc attempts) state =
    let slot = (state.slot_start + state.slot_stride * state.next_slot_ordinal) % state.capacity in
    let next = record state { next_slot_ordinal = state.next_slot_ordinal + 1 } in
    let rest = take_slot_loop attempts next in
    if has state.used_slots slot
    then rest
    else some (slot, record next { used_slots = slot ∷ state.used_slots })

-- `takeRouteSlot(state)`
unfoldable pub take_route_slot : RouteState → Option (ℕ × RouteState)
unfolding take_slot_loop
take_route_slot state = take_slot_loop state.capacity state
