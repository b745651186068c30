-- ===== src/Allocator/Slots.antt =====
-- src/simulator/road-allocator.js: `takeRouteSlot` finds a free slot while there is one.
use Prim.Native.Nat.{◌∣◌}
use native.Mathlib.Nat
use mathlib.Core.Path.{subst}
use gps_device_virtual_farm.Prelude.{
  ℕ, zero, suc, ◌+◌, ◌-◌, ◌*◌, ◌/◌, ◌%◌, ◌≤◌, ◌<◌, ◌≡◌, ◌≢◌, refl, sym, ap, ◌∙◌, ◌⊎◌, inl, inr,
  true, false, Option, some, List, [], ◌∷◌, arith, ◌==◌, if◌then◌else◌, Bool-cases, length,
}
use gps_device_virtual_farm.Prelude.Sets.{has}
use gps_device_virtual_farm.Allocator.{RouteState, gcd, take_slot_loop, take_route_slot}
use gps_device_virtual_farm.Allocator.Stride.{dvd_of_gcd}

remove : ℕ → List ℕ → List ℕ
remove x [] = []
remove x (s ∷ ss) = let rest = remove x ss in if s == x then rest else s ∷ rest

has-remove : (xs : List ℕ) (x y : ℕ) → x ≢ y → has xs y ≡ true → has (remove x xs) y ≡ true
unfolding has remove
has-remove [] x y ne h = h
has-remove (s ∷ ss) x y ne h = ground (arith, has-remove ss x y ne)

length-remove_le : (xs : List ℕ) (x : ℕ) → length (remove x xs) ≤ length xs
unfolding remove
length-remove_le [] x = omega arith
length-remove_le (s ∷ ss) x = ground (arith, length-remove_le ss x)

length-remove : (xs : List ℕ) (x : ℕ) → has xs x ≡ true → length (remove x xs) < length xs
unfolding has remove
length-remove [] x h = absurd (ground arith)
length-remove (s ∷ ss) x h = ground (arith, length-remove ss x, length-remove_le ss x)

-- The pigeonhole principle: a list that has `n` different numbers is of length `n` at least.
pigeonhole :
    (f : ℕ → ℕ) (n : ℕ) (xs : List ℕ)
    → ((i j : ℕ) → i < j → j < n → f i ≢ f j)
    → ((i : ℕ) → i < n → has xs (f i) ≡ true)
    → n ≤ length xs
pigeonhole f zero xs apart all = omega arith
pigeonhole f (suc n) xs apart all =
    let last = length-remove xs (f n) (all n (omega arith)) in
    let rest =
      pigeonhole f n (remove (f n) xs) (λ i j p q. apart i j p (omega arith))
        (λ i p.
          has-remove xs (f n) (f i) (λ e. apart i n p (omega arith) (sym e))
            (all i (omega arith))) in
    omega arith

-- Numbers of the same remainder lie a multiple of the modulus apart.
dvd_of_mod : (c a d : ℕ) → a % c ≡ (a + d) % c → c ∣ d
dvd_of_mod c a d e = subst (λ n. c ∣ n) difference (Nat.dvd-mul_right c ((a + d) / c - a / c))
  where
    difference : c * ((a + d) / c - a / c) ≡ d
    difference = omega (
      arith,
      e,
      Nat.div-add-mod a c,
      Nat.div-add-mod (a + d) c,
      Nat.mul-sub c ((a + d) / c) (a / c),
    )

-- The slot of an ordinal.
abbrev slot_at : RouteState → ℕ → ℕ
slot_at state ordinal = (state.slot_start + state.slot_stride * ordinal) % state.capacity

slot_at-injective :
    (state : RouteState) (o i j : ℕ)
    → gcd state.slot_stride state.capacity ≡ 1
    → i < j
    → j < state.capacity
    → slot_at state (o + i) ≢ slot_at state (o + j)
slot_at-injective state o i j coprime p q e =
    let step = state.slot_stride * (j - i) in
    let further : state.slot_start + state.slot_stride * (o + i) + step
        ≡ state.slot_start + state.slot_stride * (o + j) =
      omega (
        arith,
        ap (λ n. state.slot_stride * n) (later i j p),
        Nat.mul-add state.slot_stride (o + i) (j - i),
      ) in
    let apart =
      dvd_of_mod state.capacity (state.slot_start + state.slot_stride * (o + i)) step
        (e ∙ ap (λ n. n % state.capacity) (sym further)) in
    omega (
      arith,
      Nat.le_of_dvd {n = j - i} (omega arith)
          (dvd_of_gcd state.slot_stride state.capacity (j - i) coprime apart),
    )
  where
    later : (i j : ℕ) → i < j → o + i + (j - i) ≡ o + j
    later i j p = omega arith

-- A loop that takes no slot has met only used ones.
Searched : ℕ → RouteState → Type 0
Searched attempts state =
    ((i : ℕ)
      → i < attempts
      → has state.used_slots (slot_at state (state.next_slot_ordinal + i)) ≡ true)

-- What `takeRouteSlot` is to give: a slot of the route that was free, and now is not.
abbrev pub Takes : RouteState → Option (ℕ × RouteState) → Type 0
Takes state result =
    (slot : ℕ) × (after : RouteState) × (result ≡ some (slot, after))
    × (slot < state.capacity)
    × (has state.used_slots slot ≡ false)
    × (after.used_slots ≡ slot ∷ state.used_slots)
    × (after.capacity ≡ state.capacity)
    × (after.slot_start ≡ state.slot_start)
    × (after.slot_stride ≡ state.slot_stride)

take_slot_loop_lem :
    (attempts : ℕ) (state : RouteState)
    → 0 < state.capacity
    → Takes state (take_slot_loop attempts state) ⊎ Searched attempts state
unfolding take_slot_loop Searched
take_slot_loop_lem zero state h = inr (λ i p. absurd (omega arith))
take_slot_loop_lem (suc attempts) state h =
    let slot = slot_at state state.next_slot_ordinal in
    let next = record state { next_slot_ordinal = state.next_slot_ordinal + 1 } in
    elim (Bool-cases (has state.used_slots slot)) [
      | inr free ↦ inl (
        slot,
        record next { used_slots = slot ∷ state.used_slots },
        rw free refl,
        Nat.mod-lt _ h,
        free,
        refl,
        refl,
        refl,
        refl,
      )
      | inl used ↦ elim (take_slot_loop_lem attempts next h) [
        | inl (s, after, e, range, free, taken, a, b, c) ↦
            inl (s, after, rw used e, range, free, taken, a, b, c)
        | inr searched ↦ inr (first_and_rest attempts state used searched)
      ]
    ]
  where
    first_and_rest :
        (attempts : ℕ) (state : RouteState)
        → has state.used_slots (slot_at state state.next_slot_ordinal) ≡ true
        → ((i : ℕ)
            → i < attempts
            → has state.used_slots (slot_at state (state.next_slot_ordinal + 1 + i)) ≡ true)
        → (i : ℕ) → i < suc attempts
        → has state.used_slots (slot_at state (state.next_slot_ordinal + i)) ≡ true
    first_and_rest attempts state used searched zero p =
        subst (λ n. has state.used_slots (slot_at state n) ≡ true)
          (sym (Nat.add-zero state.next_slot_ordinal)) used
    first_and_rest attempts state used searched (suc i) p =
        subst (λ n. has state.used_slots (slot_at state n) ≡ true) (omega arith)
          (searched i (omega arith))

-- `takeRouteSlot` never fails while fewer slots are used than the route has, whichever they are and
-- wherever the search begins, for a stride that has no factor in common with the capacity: it gives a
-- slot of the route that was free, and marks this one alone as used.
pub take_route_slot_lem :
    (state : RouteState)
    → gcd state.slot_stride state.capacity ≡ 1
    → length state.used_slots < state.capacity
    → Takes state (take_route_slot state)
unfolding take_route_slot Searched
take_route_slot_lem state coprime room =
    elim (take_slot_loop_lem state.capacity state (omega arith)) [
      | inl taken ↦ taken
      | inr searched ↦
          let full =
            pigeonhole (λ i. slot_at state (state.next_slot_ordinal + i)) state.capacity
              state.used_slots
              (λ i j p q. slot_at-injective state state.next_slot_ordinal i j coprime p q)
              searched in
          absurd (omega arith)
    ]
