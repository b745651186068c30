-- ===== src/Movement/Segment.antt =====
-- src/simulator/road-movement.js: `segmentAtDistance` finds the segment of a distance by bisection.
use mathlib.Core.Path.{subst}
use gps_device_virtual_farm.Prelude.{
  ℕ, zero, suc, ◌+◌, ◌-◌, ◌/◌, ◌≤◌, ◌<◌, min, ◌≡◌, refl, ap, ◌∙◌, ◌⊎◌, inl, inr, Option, none, some,
  List, arith, ltb, leb, if◌then◌else◌, holds_cases, ltb→lt, leb→le, length, get_or,
}

-- The loop, on fuel: what is between `low` and `high` shrinks. `none` would mean that the fuel ran out.
unfoldable pub bisect : ℕ → List ℕ → ℕ → ℕ → ℕ → Option ℕ
bisect zero cumulative d low high = if ltb low high then none else some low
bisect (suc fuel) cumulative d low high =
    let middle = (low + high) / 2 in
    let right = bisect fuel cumulative d (middle + 1) high in
    let left = bisect fuel cumulative d low middle in
    if ltb low high then if leb (get_or cumulative middle 0) d then right else left else some low

unfoldable pub segment_of : List ℕ → Option ℕ → Option ℕ
segment_of cumulative none = none
segment_of cumulative (some low) = some (min (length cumulative - 2) (low - 1))

-- `segmentAtDistance(cumulativeMeters, distanceMeters)`
unfoldable pub segment_at_distance : List ℕ → ℕ → Option ℕ
segment_at_distance cumulative d =
    segment_of cumulative (bisect (length cumulative) cumulative d 1 (length cumulative - 1))

-- Where the bisection ends.
abbrev IsEnd : List ℕ → ℕ → ℕ → Type 0
IsEnd cumulative d low =
    (1 ≤ low)
    × (low ≤ length cumulative - 1)
    × (get_or cumulative (low - 1) 0 ≤ d)
    × ((low ≡ length cumulative - 1) ⊎ (d < get_or cumulative low 0))

abbrev Found : List ℕ → ℕ → Option ℕ → Type 0
Found cumulative d result = (end : ℕ) × (result ≡ some end) × IsEnd cumulative d end

Bounded : List ℕ → ℕ → ℕ → Type 0
Bounded cumulative d high = (high ≡ length cumulative - 1) ⊎ (d < get_or cumulative high 0)

bisect_lem :
    (fuel : ℕ) (cumulative : List ℕ) (d low high : ℕ)
    → high ≤ low + fuel
    → 1 ≤ low
    → low ≤ high
    → high ≤ length cumulative - 1
    → get_or cumulative (low - 1) 0 ≤ d
    → Bounded cumulative d high
    → Found cumulative d (bisect fuel cumulative d low high)
unfolding bisect Bounded
bisect_lem zero cumulative d low high f a b c below above =
    let met : high ≡ low = omega arith in
    holds_cases (Found cumulative d) (ltb low high) (λ less. absurd (ground (arith, less, met)))
      (λ _. (low, refl, (a, omega arith, below, subst (Bounded cumulative d) met above)))
bisect_lem (suc fuel) cumulative d low high f a b c below above =
    let middle = (low + high) / 2 in
    holds_cases (Found cumulative d) (ltb low high)
      (λ less.
        let apart = ltb→lt low high less in
        holds_cases (Found cumulative d) (leb (get_or cumulative middle 0) d)
          (λ reached.
            bisect_lem fuel cumulative d (middle + 1) high (omega (arith, apart)) (omega arith)
              (omega (arith, apart)) c
              (subst (λ i. get_or cumulative i 0 ≤ d) (omega arith) (leb→le _ d reached)) above)
          (λ beyond.
            bisect_lem fuel cumulative d low middle (omega (arith, apart)) a (omega (arith, apart))
              (omega (arith, apart)) below (inr (ground (arith, beyond)))))
      (λ met.
        let equal : high ≡ low = ground (arith, met, b) in
        (low, refl, (a, omega (arith, equal), below, subst (Bounded cumulative d) equal above)))

-- `segmentAtDistance` ends, and finds the segment that the distance lies in: for a route of two vertices or
-- more and a distance from its first vertex on, the segment is one of the route, starts at the distance or
-- before it, and ends beyond it, unless it is the last one.
pub segment_at_distance_lem :
    (cumulative : List ℕ) (d : ℕ)
    → 2 ≤ length cumulative
    → get_or cumulative 0 0 ≤ d
    → (segment : ℕ) × (segment_at_distance cumulative d ≡ some segment)
      × (segment + 1 < length cumulative)
      × (get_or cumulative segment 0 ≤ d)
      × ((segment + 2 ≡ length cumulative) ⊎ (d < get_or cumulative (segment + 1) 0))
unfolding segment_at_distance segment_of Bounded
segment_at_distance_lem cumulative d two start =
    let count = length cumulative in
    let (end, e, (low, high, below, above)) =
      bisect_lem count cumulative d 1 (count - 1) (omega arith) (omega arith) (omega (arith, two))
        (omega arith) start (inl refl) in
    let place : min (count - 2) (end - 1) ≡ end - 1 = omega (arith, low, high) in
    (
      end - 1,
      ap (segment_of cumulative) e ∙ ap some place,
      omega (arith, low, high, two),
      below,
      elim above [
        | inl last ↦ inl (omega (arith, last, low))
        | inr next ↦ inr (subst (λ i. d < get_or cumulative i 0) (omega (arith, low)) next)
      ],
    )
