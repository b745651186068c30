-- ===== src/Budget/Examples.antt =====
-- The theorems on src/road/provider-budget.js at a concrete run.
use gps_device_virtual_farm.Prelude.{◌≡◌, ◌⊎◌, refl, false, some, List, [], ◌∷◌, All, arith}
use gps_device_virtual_farm.Budget.{
  BudgetLimits, new_budget, BudgetState, attempts, Env, failed, BudgetEvent, wrote, called, renewed,
  counted, run_locked,
}
use gps_device_virtual_farm.Budget.Limits.{
  IsWithin, EventIsWithin, run_locked-IsWithin, calls, IsAllowed, run_locked_order,
}

abbrev limits : BudgetLimits
limits = record { min_spacing_ms = 2000; daily_limit = 100; action_limit = 30 }

new_budget_caps : new_budget 500 1000 30 ≡ some limits
unfolding new_budget
new_budget_caps = refl

abbrev before : BudgetState
before = record {
  day = 20_000;
  daily_attempts = 7;
  last_attempt_ms = 5_000;
  cooldown_until_ms = 0;
  consecutive_failures = 2;
  actions = (3, 4) ∷ [];
}

-- A run after which the provider has failed three times.
abbrev env : Env
env = record {
  aborted_first = false;
  today = 20_000;
  checked_at = 6_000;
  delayed_at = 6_000;
  sleep_canceled = false;
  aborted_later = false;
  started_at = 7_000;
  result = failed (some 503) 0;
  ended_at = 7_500;
  random_units = 0;
}

before-IsWithin : IsWithin limits before
unfolding attempts
before-IsWithin = (omega arith, λ action. ground arith)

run_locked-IsWithin_example : All (EventIsWithin limits) (run_locked limits 3 env before)
run_locked-IsWithin_example = run_locked-IsWithin limits 3 env before before-IsWithin

run_locked_order_example :
    (run_locked limits 3 env before ≡ [])
    ⊎ (IsAllowed limits 3 env before
        × (rest : List BudgetEvent) × (run_locked limits 3 env before
            ≡ wrote (counted 3 7_000 (renewed 20_000 before)) ∷ called ∷ rest)
        × (calls rest ≡ 0))
run_locked_order_example = run_locked_order limits 3 env before
