-- ===== src/Status.antt =====
-- src/main/road-preparation-status-store.js: the status of a route preparation, as it is written and read.
-- A number is given in thousandths; one that is negative, not finite or no number at all is `improper`.
pub mod Store
pub mod Normal
mod Examples
use gps_device_virtual_farm.Prelude.{
  ℕ, ◌+◌, ◌*◌, ◌/◌, ◌%◌, Bool, true, false, not, ◌&&◌, ◌||◌, Option, none, some, List, [], ◌∷◌, ltb,
  leb, ◌==◌, if◌then◌else◌, length,
}

-- `STATES`
pub data RunState : Type 0 where
  running ready usable incomplete blocked canceled : RunState

pub data Number : Type 0 where
  finite : ℕ → Number
  improper : Number

pub data Text : Type 0 where
  text : List ℕ → Text
  no_text : Text

-- A flag or an object of the wrong type is the inner `none`; an absent one is the outer.
pub record Status : Type 0 where
  pub state : Option RunState
  pub numbers : List (Option Number)
  pub texts : List (Option Text)
  pub retry_at : Option Number
  pub resume_available : Option (Option Bool)
  pub composition : Option (Option (List Number))

-- `value < 0 || value > 30 * 24 * 60 * 60 * 1000`, and `Math.round(value)`
unfoldable pub normal_number : Number → Option Number
normal_number improper = none
normal_number (finite v) =
    if ltb 2592000000000 v then none else some (finite ((v + 500) / 1000 * 1000))

-- The loop over NUMBER_FIELDS.
unfoldable pub normal_numbers : List (Option Number) → Option (List (Option Number))
normal_numbers [] = some []
normal_numbers (none ∷ vs) = elim (normal_numbers vs) [ some ns ↦ some (none ∷ ns) | none ↦ none ]
normal_numbers (some v ∷ vs) = elim (normal_number v) [
  | none ↦ none
  | some n ↦ elim (normal_numbers vs) [ some ns ↦ some (some n ∷ ns) | none ↦ none ]
]

-- The loop over STRING_FIELDS, whose values are not changed.
unfoldable pub are_texts : List (Option Text) → Bool
are_texts [] = true
are_texts (none ∷ ts) = are_texts ts
are_texts (some no_text ∷ ts) = false
are_texts (some (text t) ∷ ts) = leb (length t) 300 && are_texts ts

-- `Number.isInteger(value) && value >= 0 && value <= limit`
unfoldable pub is_integer_to : ℕ → Number → Bool
is_integer_to limit improper = false
is_integer_to limit (finite v) = v % 1000 == 0 && leb v (limit * 1000)

unfoldable pub is_retry_at : Option Number → Bool
is_retry_at none = true
is_retry_at (some v) = is_integer_to 4102444800000 v

unfoldable pub is_resume : Option (Option Bool) → Bool
is_resume (some none) = false
is_resume _ = true

unfoldable pub are_counts : List Number → Bool
are_counts [] = true
are_counts (n ∷ ns) = is_integer_to 2500 n && are_counts ns

unfoldable pub is_composition : Option (Option (List Number)) → Bool
is_composition none = true
is_composition (some none) = false
is_composition (some (some ns)) = are_counts ns

unfoldable pub is_some : Option RunState → Bool
is_some none = false
is_some (some s) = true

-- `normalizeStatus(status)`, from the numbers
unfoldable pub normalize_with : Status → Option (List (Option Number)) → Option Status
normalize_with s none = none
normalize_with s (some ns) =
    if are_texts s.texts
      && (is_retry_at s.retry_at && (is_resume s.resume_available && is_composition s.composition))
    then some (record s { numbers = ns })
    else none

-- `normalizeStatus(status)`
unfoldable pub normalize_status : Status → Option Status
normalize_status s = if is_some s.state then normalize_with s (normal_numbers s.numbers) else none
