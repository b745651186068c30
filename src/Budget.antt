-- ===== src/Budget.antt =====
-- src/road/provider-budget.js: ProviderBudget, under its locks. A day is the number of its ISO date, so
-- that later dates have larger numbers; an action is named by a number. What the clock, the signal and
-- the operation do in a run is in `Env`.
pub mod Limits
mod Examples
use gps_device_virtual_farm.Prelude.{
  ℕ, ◌+◌, ◌-◌, ◌*◌, ◌/◌, ◌^◌, min, max, Bool, ◌||◌, ◌&&◌, Option, none, some, List, [], ◌∷◌, ltb,
  leb, ◌==◌, if◌then◌else◌,
}

-- The limits that the constructor keeps.
pub record BudgetLimits : Type 0 where
  pub min_spacing_ms : ℕ
  pub daily_limit : ℕ
  pub action_limit : ℕ

-- The constructor's checks and caps; `none` is a thrown error.
unfoldable pub new_budget : ℕ → ℕ → ℕ → Option BudgetLimits
new_budget min_spacing daily action =
    if ltb daily 1 || ltb action 1
    then none
    else some (record {
      min_spacing_ms = max 2000 min_spacing;
      daily_limit = min 100 daily;
      action_limit = min 30 action;
    })

-- The state in the file.
pub record BudgetState : Type 0 where
  pub day : ℕ
  pub daily_attempts : ℕ
  pub last_attempt_ms : ℕ
  pub cooldown_until_ms : ℕ
  pub consecutive_failures : ℕ
  pub actions : List (ℕ × ℕ)

-- `state.actions[actionId] || 0`
unfoldable pub attempts : List (ℕ × ℕ) → ℕ → ℕ
attempts [] action = 0
attempts ((name, count) ∷ rest) action = if name == action then count else attempts rest action

-- `state.actions[actionId] = count`
unfoldable pub set_attempts : List (ℕ × ℕ) → ℕ → ℕ → List (ℕ × ℕ)
set_attempts [] action count = (action, count) ∷ []
set_attempts ((name, old) ∷ rest) action count =
    if name == action then (name, count) ∷ rest else (name, old) ∷ set_attempts rest action count

-- What the operation does: it succeeds, it is canceled, or it fails, with an HTTP status or with none,
-- and with `retryAfterMs`.
pub data OperationResult : Type 0 where
  succeeded canceled : OperationResult
  failed : Option ℕ → ℕ → OperationResult

-- What a run meets, in the order of time: whether the signal is aborted at first; the day; the clock at
-- the check of the cooldown, and at the computation of the delay; whether the sleep is canceled, and the
-- signal aborted after it; the clock at the attempt; the operation; the clock after it; and
-- `Math.random()` in units of 2 ** -53.
pub record Env : Type 0 where
  pub aborted_first : Bool
  pub today : ℕ
  pub checked_at : ℕ
  pub delayed_at : ℕ
  pub sleep_canceled : Bool
  pub aborted_later : Bool
  pub started_at : ℕ
  pub result : OperationResult
  pub ended_at : ℕ
  pub random_units : ℕ

-- What a run does to the world: it writes the state file, or it calls the operation.
pub data BudgetEvent : Type 0 where
  wrote : BudgetState → BudgetEvent
  called : BudgetEvent

-- The counts start anew on another day.
unfoldable pub renewed : ℕ → BudgetState → BudgetState
renewed today s =
    if ltb s.day today then record s { day = today; daily_attempts = 0; actions = [] } else s

-- The attempt is counted.
unfoldable pub counted : ℕ → ℕ → BudgetState → BudgetState
counted action started_at s = record s {
  last_attempt_ms = started_at;
  daily_attempts = s.daily_attempts + 1;
  actions = set_attempts s.actions action (attempts s.actions action + 1);
}

-- A failure that is the provider's: the third in a row and each later one start a cooldown. The jitter,
-- `0.8 + random * 0.4`, is taken exactly.
unfoldable pub server_failure : ℕ → ℕ → BudgetState → BudgetState
server_failure ended_at random_units s =
    let failures = s.consecutive_failures + 1 in
    let pause =
      60_000
      * 2 ^ min 8 (failures - 3)
      * (8 * 2 ^ 53 + 4 * min (2 ^ 53) random_units)
      / (10 * 2 ^ 53) in
    let cooldown = max s.cooldown_until_ms (ended_at + min 3_600_000 pause) in
    if ltb failures 3
    then record s { consecutive_failures = failures }
    else record s { consecutive_failures = failures; cooldown_until_ms = cooldown }

-- The `catch` block, for a failure that is not a cancellation.
unfoldable pub after_failure : Option ℕ → ℕ → Env → BudgetState → BudgetState
after_failure none retry_after e s = server_failure e.ended_at e.random_units s
after_failure (some status) retry_after e s =
    if status == 429
    then record s {
      cooldown_until_ms = max s.cooldown_until_ms (e.ended_at + max 900_000 retry_after);
    }
    else if leb 500 status
    then server_failure e.ended_at e.random_units s
    else s

unfoldable pub settled : OperationResult → Env → BudgetState → List BudgetEvent
settled succeeded e s = wrote (record s { consecutive_failures = 0 }) ∷ []
settled canceled e s = []
settled (failed status retry_after) e s = wrote (after_failure status retry_after e s) ∷ []

-- `#runLocked(actionId, operation, signal)`: what it does. A run that is refused does nothing.
unfoldable pub run_locked : BudgetLimits → ℕ → Env → BudgetState → List BudgetEvent
run_locked limits action e before =
    let s = renewed e.today before in
    let after = counted action e.started_at s in
    if e.aborted_first
    then []
    else if ltb e.today before.day
    then []
    else if leb limits.action_limit (attempts s.actions action)
        || leb limits.daily_limit s.daily_attempts
    then []
    else if ltb e.checked_at s.cooldown_until_ms
    then []
    else if ltb e.delayed_at (s.last_attempt_ms + limits.min_spacing_ms) && e.sleep_canceled
    then []
    else if e.aborted_later
    then []
    else wrote after ∷ called ∷ settled e.result e after
