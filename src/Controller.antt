-- ===== src/Controller.antt =====
-- src/main/simulator-controller.js: the controller of the simulation's worker thread. A request is a
-- promise: `settled` lists the calls of its `resolve` and `reject` that handlers make, the last one first.
-- Where posting the message throws, the promise is rejected by that, and a later call has no effect. What
-- awaits a promise goes on before the next event. The worker is there or `null`.
pub mod Promises
mod Examples
use gps_device_virtual_farm.Prelude.{
  ℕ, suc, ◌+◌, Bool, true, false, ◌&&◌, not, Option, none, some, List, [], ◌∷◌, ◌++◌, ◌==◌,
  if◌then◌else◌,
}
use gps_device_virtual_farm.Prelude.Sets.{has, delete}

-- How a request ends: `resolve`, or `reject` with one of five errors.
pub data Outcome : Type 0 where
  resolved worker_error timed_out fatal_error worker_failure worker_exit post_error : Outcome

-- Who awaits a request.
pub data Caller : Type 0 where
  by_start by_stop : Caller

pub record Settlement : Type 0 where
  pub id : ℕ
  pub outcome : Outcome

pub record Awaiting : Type 0 where
  pub request_id : ℕ
  pub caller : Caller

-- The fields of a SimulatorController, with the timers that are armed, the requests that are awaited,
-- and the numbers of the calls of `onFatal` and of `terminate`. `pending` lists the map's keys, and
-- `post_errors` the requests that could not be posted.
pub record Controller : Type 0 where
  pub worker : Bool
  pub pending : List ℕ
  pub timers : List ℕ
  pub request_sequence : ℕ
  pub running : Bool
  pub settled : List Settlement
  pub post_errors : List ℕ
  pub awaiting : List Awaiting
  pub fatal_calls : ℕ
  pub terminate_calls : ℕ

-- `new SimulatorController(callbacks)`
abbrev pub new_controller : Controller
new_controller = record {
  worker = false;
  pending = [];
  timers = [];
  request_sequence = 0;
  running = false;
  settled = [];
  post_errors = [];
  awaiting = [];
  fatal_calls = 0;
  terminate_calls = 0;
}

-- `pending.resolve(…)` or `pending.reject(…)`
unfoldable pub settle : ℕ → Outcome → Controller → Controller
settle id outcome c = record c { settled = record { id = id; outcome = outcome } ∷ c.settled }

-- `#terminateWorker()`
unfoldable pub terminate_worker : Controller → Controller
terminate_worker c =
    if c.worker then record c { worker = false; terminate_calls = c.terminate_calls + 1 } else c

-- The loop of `#rejectAll(error)`, and the `clear()` after it.
unfoldable pub reject_each : List ℕ → Outcome → Controller → Controller
reject_each [] outcome c = c
reject_each (id ∷ ids) outcome c =
    reject_each ids outcome (settle id outcome (record c { timers = delete c.timers id }))

unfoldable pub reject_all : Outcome → Controller → Controller
reject_all outcome c = let after = reject_each c.pending outcome c in record after { pending = [] }

-- `#request(type, payload, timeoutMs)`: without a worker the promise is rejected at once, and nothing
-- changes. `post_throws` says whether `postMessage` throws; the entry and the timer stay then.
unfoldable pub request : Bool → Caller → Controller → Controller
request post_throws caller c =
    if c.worker
    then record c {
      post_errors = if post_throws then suc c.request_sequence ∷ c.post_errors else c.post_errors;
      request_sequence = c.request_sequence + 1;
      pending = c.pending ++ suc c.request_sequence ∷ [];
      timers = c.timers ++ suc c.request_sequence ∷ [];
      awaiting = c.awaiting ++ record { request_id = suc c.request_sequence; caller = caller } ∷ [];
    }
    else c

-- `start(inputConfig, roadContext)`, up to its `await`; `valid` says whether `validateConfig` returns.
unfoldable pub start : Bool → Bool → Controller → Controller
start post_throws valid c =
    if not c.worker && valid then request post_throws by_start (record c { worker = true }) else c

-- `stop()`, up to its `await`
unfoldable pub stop : Bool → Controller → Controller
stop post_throws c = if c.worker then request post_throws by_stop c else c

-- What `start` and `stop` do after their `await`.
unfoldable pub continue_call : Caller → Outcome → Controller → Controller
continue_call by_start resolved c = record c { running = true }
continue_call by_start _ c = terminate_worker c
continue_call by_stop _ c = terminate_worker (record c { running = false })

-- The callback of `setTimeout`: a timer that was cleared does not fire.
unfoldable pub on_timeout : ℕ → Controller → Controller
on_timeout id c =
    if has c.timers id
    then settle id timed_out
        (record c { timers = delete c.timers id; pending = delete c.pending id })
    else c

-- The messages of the worker; the last two answer a request.
pub data Message : Type 0 where
  log metrics fatal : Message
  error reply : ℕ → Message

-- The answer to a request that is still pending.
unfoldable pub on_answer : ℕ → Outcome → Controller → Controller
on_answer id outcome c =
    if has c.pending id
    then settle id outcome (record c { timers = delete c.timers id; pending = delete c.pending id })
    else c

-- `#onMessage(message)`. The termination of the worker is not awaited.
unfoldable pub on_message : Message → Controller → Controller
on_message log c = c
on_message metrics c = c
on_message fatal c =
    let rejected = reject_all fatal_error (record c { fatal_calls = c.fatal_calls + 1 }) in
    terminate_worker (record rejected { running = false })
on_message (error id) c = on_answer id worker_error c
on_message (reply id) c = on_answer id resolved c

-- `#onWorkerFailure(error)`
unfoldable pub on_worker_failure : Controller → Controller
on_worker_failure c =
    let rejected = reject_all worker_failure (record c { fatal_calls = c.fatal_calls + 1 }) in
    record rejected { running = false }

-- `#onWorkerExit(code)`
unfoldable pub on_worker_exit : ℕ → Controller → Controller
on_worker_exit code c =
    let left = record c { worker = false } in
    let reported =
      if not (code == 0) && c.worker
      then reject_all worker_exit (record left { fatal_calls = left.fatal_calls + 1 })
      else left in
    record reported { running = false }

-- What a promise was settled with by a handler, if it was; the first settlement counts.
unfoldable pub outcome_of : List Settlement → ℕ → Option Outcome
outcome_of [] id = none
outcome_of (s ∷ ss) id = elim (outcome_of ss id) [
  | some first ↦ some first
  | none ↦ if s.id == id then some s.outcome else none
]

-- What a promise was settled with: an error of `postMessage` comes before all else.
unfoldable pub result_of : Controller → ℕ → Option Outcome
result_of c id = if has c.post_errors id then some post_error else outcome_of c.settled id

-- What awaits a settled promise goes on.
unfoldable pub drain : List Awaiting → Controller → Controller
drain [] c = c
drain (a ∷ rest) c = elim (result_of c a.request_id) [
  | none ↦ drain rest (record c { awaiting = c.awaiting ++ a ∷ [] })
  | some outcome ↦ drain rest (continue_call a.caller outcome c)
]

pub data Event : Type 0 where
  start_called : Bool → Bool → Event
  stop_called : Bool → Event
  message : Message → Event
  failed : Event
  exited : ℕ → Event
  timer_fired : ℕ → Event

unfoldable pub handle : Event → Controller → Controller
handle (start_called throws valid) c = start throws valid c
handle (stop_called throws) c = stop throws c
handle (message m) c = on_message m c
handle failed c = on_worker_failure c
handle (exited code) c = on_worker_exit code c
handle (timer_fired id) c = on_timeout id c

-- An event, with what it lets go on.
unfoldable pub step : Event → Controller → Controller
step event c = let after = handle event c in drain after.awaiting (record after { awaiting = [] })

unfoldable pub run : List Event → Controller → Controller
run [] c = c
run (e ∷ es) c = run es (step e c)
