-- ===== src/Budget/Limits.antt =====
-- The limits of src/road/provider-budget.js hold, and an attempt is on file before it is made.
use gps_device_virtual_farm.Prelude.{
  holds_if, ℕ, ◌+◌, ◌≤◌, ◌<◌, ◌≡◌, refl, ◌⊎◌, inl, inr, false, ◌||◌, ◌&&◌, none, some, List, [],
  ◌∷◌, arith, ltb, leb, ◌==◌, if◌then◌else◌, All, Bool-cases,
}
use gps_device_virtual_farm.Budget.{
  BudgetLimits, BudgetState, attempts, set_attempts, OperationResult, succeeded, canceled, failed,
  Env, BudgetEvent, wrote, called, renewed, counted, server_failure, after_failure, settled,
  run_locked,
}

attempts-set_attempts :
    (rest : List (ℕ × ℕ)) (a n b : ℕ)
    → attempts (set_attempts rest a n) b ≡ (if a == b then n else attempts rest b)
unfolding attempts set_attempts
attempts-set_attempts [] a n b = refl
attempts-set_attempts ((name, old) ∷ rest) a n b = ground (arith, attempts-set_attempts rest a n b)

-- A state within the limits: so many attempts in the day, and so many for each action.
abbrev pub IsWithin : BudgetLimits → BudgetState → Type 0
IsWithin limits s =
    (s.daily_attempts ≤ limits.daily_limit)
    × ((action : ℕ) → attempts s.actions action ≤ limits.action_limit)

-- A write is of a state within the limits.
pub EventIsWithin : BudgetLimits → BudgetEvent → Type 0
EventIsWithin limits (wrote s) = IsWithin limits s
EventIsWithin limits called = Unit

module _ (limits : BudgetLimits) where
  counted-IsWithin :
      (action at : ℕ) (s : BudgetState)
      → attempts s.actions action < limits.action_limit
      → s.daily_attempts < limits.daily_limit
      → IsWithin limits s
      → IsWithin limits (counted action at s)
  unfolding counted
  counted-IsWithin action at s h k (daily, each) = (
    omega arith,
    λ b.
        ground
          (arith, attempts-set_attempts s.actions action (attempts s.actions action + 1) b, each b),
  )

  server_failure-IsWithin :
      (at random : ℕ) (s : BudgetState)
      → IsWithin limits s
      → IsWithin limits (server_failure at random s)
  unfolding server_failure
  server_failure-IsWithin at random s h = elim (Bool-cases (ltb (s.consecutive_failures + 1) 3)) [
    | inl few ↦ rw few h
    | inr many ↦ rw many h
  ]

  settled-IsWithin :
      (result : OperationResult) (e : Env) (s : BudgetState)
      → IsWithin limits s
      → All (EventIsWithin limits) (settled result e s)
  unfolding settled after_failure EventIsWithin
  settled-IsWithin succeeded e s h = (h, tt)
  settled-IsWithin canceled e s h = tt
  settled-IsWithin (failed none retry) e s h =
      (server_failure-IsWithin e.ended_at e.random_units s h, tt)
  settled-IsWithin (failed (some status) retry) e s h = (
    holds_if (IsWithin limits) (status == 429) h (
        holds_if (IsWithin limits) (leb 500 status)
          (server_failure-IsWithin e.ended_at e.random_units s h) h),
    tt,
  )

  renewed-IsWithin :
      (today : ℕ) (s : BudgetState) → IsWithin limits s → IsWithin limits (renewed today s)
  unfolding renewed attempts
  renewed-IsWithin today s h =
      holds_if (IsWithin limits) (ltb s.day today) (omega arith, λ action. omega arith) h

-- Under a run, whatever it meets, the file keeps to the limits: if the state is within the limits of
-- attempts in a day and for each action, so is every state that the run writes.
pub run_locked-IsWithin :
    (limits : BudgetLimits) (action : ℕ) (e : Env) (s : BudgetState)
    → IsWithin limits s
    → All (EventIsWithin limits) (run_locked limits action e s)
unfolding run_locked EventIsWithin
run_locked-IsWithin limits action e s h = ground (
  arith,
  renewed-IsWithin limits e.today s h,
  counted-IsWithin limits action e.started_at (renewed e.today s),
  settled-IsWithin limits e.result e (counted action e.started_at (renewed e.today s)),
)

-- How often the operation is called.
pub calls : List BudgetEvent → ℕ
calls [] = 0
calls (wrote s ∷ events) = calls events
calls (called ∷ events) = calls events + 1

calls-settled :
    (result : OperationResult) (e : Env) (s : BudgetState) → calls (settled result e s) ≡ 0
unfolding calls settled
calls-settled succeeded e s = refl
calls-settled canceled e s = refl
calls-settled (failed status retry) e s = refl

-- What an attempt that goes ahead has met: the state is not of a later day, the limits leave room for
-- it, the cooldown is over, and the sleep that the spacing asks for was not canceled.
abbrev pub IsAllowed : BudgetLimits → ℕ → Env → BudgetState → Type 0
IsAllowed limits action e before =
    let s = renewed e.today before in
    (before.day ≤ e.today)
    × (s.daily_attempts < limits.daily_limit)
    × (attempts s.actions action < limits.action_limit)
    × (s.cooldown_until_ms ≤ e.checked_at)
    × ((s.last_attempt_ms + limits.min_spacing_ms ≤ e.delayed_at) ⊎ (e.sleep_canceled ≡ false))

-- A run either does nothing, or makes an attempt that the day, the limits, the cooldown and the spacing
-- allow: then it first writes the state in which the attempt is counted, next calls the operation, and
-- calls it no more after that.
pub run_locked_order :
    (limits : BudgetLimits) (action : ℕ) (e : Env) (before : BudgetState)
    → (run_locked limits action e before ≡ [])
      ⊎ (IsAllowed limits action e before
          × (rest : List BudgetEvent) × (run_locked limits action e before
              ≡ wrote (counted action e.started_at (renewed e.today before)) ∷ called ∷ rest)
          × (calls rest ≡ 0))
unfolding run_locked
run_locked_order limits action e before =
    let s = renewed e.today before in
    let after = counted action e.started_at s in
    let none_left = calls-settled e.result e after in
    elim (Bool-cases e.aborted_first) [
      | inl b ↦ inl (rw b refl)
      | inr b ↦ elim (Bool-cases (ltb e.today before.day)) [
        | inl d ↦ inl (rw (b, d) refl)
        | inr d ↦
            elim (Bool-cases (
              leb limits.action_limit (attempts s.actions action)
              || leb limits.daily_limit s.daily_attempts)) [
                | inl l ↦ inl (rw (b, d, l) refl)
                | inr l ↦ elim (Bool-cases (ltb e.checked_at s.cooldown_until_ms)) [
                  | inl k ↦ inl (rw (b, d, l, k) refl)
                  | inr k ↦
                      elim (Bool-cases (
                        ltb e.delayed_at (s.last_attempt_ms + limits.min_spacing_ms)
                        && e.sleep_canceled)) [
                          | inl w ↦ inl (rw (b, d, l, k, w) refl)
                          | inr w ↦ elim (Bool-cases e.aborted_later) [
                            | inl a ↦ inl (rw (b, d, l, k, w, a) refl)
                            | inr a ↦ inr (
                              (
                                ground (arith, d),
                                ground (arith, l),
                                ground (arith, l),
                                ground (arith, k),
                                ground (arith, w),
                              ),
                              settled e.result e after,
                              rw (b, d, l, k, w, a) refl,
                              none_left,
                            )
                          ]
                        ]
                ]
              ]
      ]
    ]
