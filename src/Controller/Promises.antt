-- ===== src/Controller/Promises.antt =====
-- src/main/simulator-controller.js: each request is settled once.
use gps_device_virtual_farm.Prelude.{
  ℕ, suc, Bool, ◌+◌, ◌≤◌, ◌≡◌, refl, ap, ◌∙◌, inl, inr, true, false, not, ◌&&◌, List, [], ◌∷◌, ◌++◌,
  arith, leb, ◌==◌, if◌then◌else◌, Bool-cases, Option-cases,
}
use gps_device_virtual_farm.Prelude.Sets.{has, delete}
use gps_device_virtual_farm.Controller.{
  Outcome, resolved, Caller, by_start, by_stop, Settlement, Awaiting, Controller, new_controller,
  settle, terminate_worker, reject_each, reject_all, request, start, stop, continue_call,
  on_timeout, Message, log, metrics, fatal, error, reply, on_answer, on_message, on_worker_failure,
  on_worker_exit, result_of, drain, Event, start_called, stop_called, message, failed, exited,
  timer_fired, handle, step, run,
}

-- How often a list has a number, and how often a promise was settled.
unfoldable pub occurrences : List ℕ → ℕ → ℕ
occurrences [] id = 0
occurrences (x ∷ xs) id = let rest = occurrences xs id in if x == id then rest + 1 else rest

unfoldable pub settlements : List Settlement → ℕ → ℕ
settlements [] id = 0
settlements (s ∷ ss) id = let rest = settlements ss id in if s.id == id then rest + 1 else rest

-- One for a request that was made.
abbrev pub issued : ℕ → ℕ → ℕ
issued sequence id = if leb 1 id && leb id sequence then 1 else 0

-- For an id: the request is pending or was settled, once; its timer is armed while it is pending.
abbrev Accounts : Controller → ℕ → Type 0
Accounts c id =
    (settlements c.settled id + occurrences c.pending id ≡ issued c.request_sequence id)
    × (occurrences c.timers id ≡ occurrences c.pending id)

occurrences-append :
    (xs : List ℕ) (x id : ℕ)
    → occurrences (xs ++ x ∷ []) id ≡ occurrences xs id + (if x == id then 1 else 0)
unfolding occurrences
occurrences-append [] x id = ground arith
occurrences-append (y ∷ ys) x id = ground (arith, occurrences-append ys x id)

occurrences-delete :
    (xs : List ℕ) (x id : ℕ)
    → occurrences (delete xs x) id ≡ (if x == id then 0 else occurrences xs id)
unfolding occurrences delete
occurrences-delete [] x id = ground arith
occurrences-delete (y ∷ ys) x id = ground (arith, occurrences-delete ys x id)

has-occurrences : (xs : List ℕ) (id : ℕ) → has xs id ≡ true → 1 ≤ occurrences xs id
unfolding has occurrences
has-occurrences [] id h = absurd (ground arith)
has-occurrences (x ∷ xs) id h = ground (arith, has-occurrences xs id)

-- Each handler keeps the accounts of each id.
Accounts-request :
    (throws : Bool) (caller : Caller) (c : Controller) (id : ℕ)
    → Accounts c id
    → Accounts (request throws caller c) id
unfolding request
Accounts-request throws caller c id h = ground (
  arith,
  h,
  occurrences-append c.pending (suc c.request_sequence) id,
  occurrences-append c.timers (suc c.request_sequence) id,
)

Accounts-on_answer :
    (answered : ℕ) (outcome : Outcome) (c : Controller) (id : ℕ)
    → Accounts c id
    → Accounts (on_answer answered outcome c) id
unfolding on_answer settle settlements
Accounts-on_answer answered outcome c id h = ground (
  arith,
  h,
  occurrences-delete c.pending answered id,
  occurrences-delete c.timers answered id,
  has-occurrences c.pending answered,
)

Accounts-on_timeout :
    (fired : ℕ) (c : Controller) (id : ℕ) → Accounts c id → Accounts (on_timeout fired c) id
unfolding on_timeout settle settlements
Accounts-on_timeout fired c id h = ground (
  arith,
  h,
  occurrences-delete c.pending fired id,
  occurrences-delete c.timers fired id,
  has-occurrences c.timers fired,
)

-- The loop of `#rejectAll` settles each id as often as it stands in the list, and clears its timer.
reject_each_lem :
    (ids : List ℕ) (outcome : Outcome) (c : Controller) (id : ℕ)
    → (settlements (reject_each ids outcome c).settled id
        ≡ settlements c.settled id + occurrences ids id)
      × (occurrences (reject_each ids outcome c).timers id
          ≡ (if occurrences ids id == 0 then occurrences c.timers id else 0))
      × ((reject_each ids outcome c).request_sequence ≡ c.request_sequence)
unfolding reject_each occurrences settle settlements
reject_each_lem [] outcome c id = ground arith
reject_each_lem (x ∷ xs) outcome c id = ground (
  arith,
  occurrences-delete c.timers x id,
  reject_each_lem xs outcome (settle x outcome (record c { timers = delete c.timers x })) id,
)

Accounts-reject_all :
    (outcome : Outcome) (c : Controller) (id : ℕ)
    → Accounts c id
    → Accounts (reject_all outcome c) id
unfolding reject_all occurrences
Accounts-reject_all outcome c id h = ground (arith, h, reject_each_lem c.pending outcome c id)

Accounts-terminate_worker :
    (c : Controller) (id : ℕ) → Accounts c id → Accounts (terminate_worker c) id
unfolding terminate_worker
Accounts-terminate_worker c id h = ground (arith, h)

Accounts-continue_call :
    (caller : Caller) (outcome : Outcome) (c : Controller) (id : ℕ)
    → Accounts c id
    → Accounts (continue_call caller outcome c) id
unfolding continue_call
Accounts-continue_call by_start resolved c id h = h
Accounts-continue_call by_start _ c id h = Accounts-terminate_worker c id h
Accounts-continue_call by_stop outcome c id h =
    Accounts-terminate_worker (record c { running = false }) id h

Accounts-drain :
    (rest : List Awaiting) (c : Controller) (id : ℕ) → Accounts c id → Accounts (drain rest c) id
unfolding drain
Accounts-drain [] c id h = h
Accounts-drain (a ∷ rest) c id h = elim (Option-cases (result_of c a.request_id)) [
  | inl e ↦ rw (e, drain) (Accounts-drain rest (record c { awaiting = c.awaiting ++ a ∷ [] }) id h)
  | inr (outcome, e) ↦
      rw (e, drain)
        (Accounts-drain rest (continue_call a.caller outcome c) id
          (Accounts-continue_call a.caller outcome c id h))
]

Accounts-on_message :
    (m : Message) (c : Controller) (id : ℕ) → Accounts c id → Accounts (on_message m c) id
unfolding on_message
Accounts-on_message log c id h = h
Accounts-on_message metrics c id h = h
Accounts-on_message fatal c id h =
    Accounts-terminate_worker _ id
      (Accounts-reject_all _ (record c { fatal_calls = c.fatal_calls + 1 }) id h)
Accounts-on_message (error n) c id h = Accounts-on_answer n _ c id h
Accounts-on_message (reply n) c id h = Accounts-on_answer n _ c id h

Accounts-on_worker_exit :
    (code : ℕ) (c : Controller) (id : ℕ) → Accounts c id → Accounts (on_worker_exit code c) id
unfolding on_worker_exit
Accounts-on_worker_exit code c id h = elim (Bool-cases (not (code == 0) && c.worker)) [
  | inl e ↦
      rw e
        (Accounts-reject_all _ (record c { worker = false; fatal_calls = c.fatal_calls + 1 }) id h)
  | inr e ↦ rw e h
]

Accounts-handle :
    (event : Event) (c : Controller) (id : ℕ) → Accounts c id → Accounts (handle event c) id
unfolding handle start stop on_worker_failure
Accounts-handle (start_called throws valid) c id h =
    ground (arith, h, Accounts-request throws by_start (record c { worker = true }) id h)
Accounts-handle (stop_called throws) c id h =
    ground (arith, h, Accounts-request throws by_stop c id h)
Accounts-handle (message m) c id h = Accounts-on_message m c id h
Accounts-handle failed c id h =
    Accounts-reject_all _ (record c { fatal_calls = c.fatal_calls + 1 }) id h
Accounts-handle (exited code) c id h = Accounts-on_worker_exit code c id h
Accounts-handle (timer_fired n) c id h = Accounts-on_timeout n c id h

Accounts-step :
    (event : Event) (c : Controller) (id : ℕ) → Accounts c id → Accounts (step event c) id
unfolding step
Accounts-step event c id h =
    Accounts-drain (handle event c).awaiting (record (handle event c) { awaiting = [] }) id
      (Accounts-handle event c id h)

Accounts-run :
    (events : List Event) (c : Controller) (id : ℕ) → Accounts c id → Accounts (run events c) id
unfolding run
Accounts-run [] c id h = h
Accounts-run (e ∷ es) c id h = Accounts-run es (step e c) id (Accounts-step e c id h)

Accounts-new : (id : ℕ) → Accounts new_controller id
unfolding settlements occurrences
Accounts-new id = ground arith

drain-pending : (rest : List Awaiting) (c : Controller) → (drain rest c).pending ≡ c.pending
unfolding drain continue_call terminate_worker
drain-pending [] c = refl
drain-pending (a ∷ rest) c = elim (Option-cases (result_of c a.request_id)) [
  | inl e ↦ rw (e, drain) (drain-pending rest (record c { awaiting = c.awaiting ++ a ∷ [] }))
  | inr (outcome, e) ↦
      rw (e, drain)
        (drain-pending rest (continue_call a.caller outcome c)
          ∙ continue_call-pending a.caller outcome c)
]
  where
    continue_call-pending :
        (caller : Caller) (outcome : Outcome) (c : Controller)
        → (continue_call caller outcome c).pending ≡ c.pending
    continue_call-pending by_start resolved c = refl
    continue_call-pending by_start _ c = ground arith
    continue_call-pending by_stop outcome c = ground arith

step-failed : (c : Controller) → (step failed c).pending ≡ []
unfolding step handle on_worker_failure reject_all
step-failed c = drain-pending _ _

handle-fatal : (c : Controller) → (handle (message fatal) c).pending ≡ []
unfolding handle on_message terminate_worker reject_all
handle-fatal c = ground arith

step-fatal : (c : Controller) → (step (message fatal) c).pending ≡ []
unfolding step
step-fatal c = drain-pending _ _ ∙ handle-fatal c

-- Each request that was made is settled, once.
abbrev pub AllSettled : Controller → Type 0
AllSettled c = (id : ℕ) → settlements c.settled id ≡ issued c.request_sequence id

AllSettled-none : (c : Controller) → c.pending ≡ [] → ((id : ℕ) → Accounts c id) → AllSettled c
unfolding occurrences
AllSettled-none c e h id = omega (arith, (h id).0, ap (λ xs. occurrences xs id) e)

-- After any calls, messages, failures, exits and timeouts, in any order: a request that was made is
-- either pending or settled by a handler, and was so at most once; no other promise was settled; and the timer of
-- a request is armed exactly while it is pending.
pub request_settles_once :
    (events : List Event) (id : ℕ)
    → (settlements (run events new_controller).settled id
          + occurrences (run events new_controller).pending id
        ≡ issued (run events new_controller).request_sequence id)
      × (occurrences (run events new_controller).timers id
          ≡ occurrences (run events new_controller).pending id)
request_settles_once events id = Accounts-run events new_controller id (Accounts-new id)

-- A failure of the worker, or a fatal message, leaves no promise open, whatever happened before: then
-- each request that was made is settled, once.
pub failure_settles_all :
    (events : List Event)
    → AllSettled (step failed (run events new_controller))
      × AllSettled (step (message fatal) (run events new_controller))
failure_settles_all events =
    let c = run events new_controller in
    (
      AllSettled-none (step failed c) (step-failed c)
          (λ id. Accounts-step failed c id (request_settles_once events id)),
      AllSettled-none (step (message fatal) c) (step-fatal c)
          (λ id. Accounts-step (message fatal) c id (request_settles_once events id)),
    )
