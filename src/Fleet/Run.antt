-- ===== src/Fleet/Run.antt =====
-- src/simulator/device-farm.js: a farm from its start on: its counts stay right whatever happens.
use mathlib.Core.Path.{subst}
use gps_device_virtual_farm.Prelude.{
  ℕ, zero, suc, ◌+◌, ◌-◌, min, List, ◌∷◌, ◌++◌, ◌≡◌, ◌⊎◌, refl, inl, inr, Bool, true, false, not,
  ◌&&◌, ◌||◌, Option, none, some, [], arith, ltb, Option-cases, holds_if, get_elem?, set, length,
}
use gps_device_virtual_farm.Imei.{generate_imei}
use gps_device_virtual_farm.Farm.{Entry}
use gps_device_virtual_farm.Session.{Session, Net, Ctx}
use gps_device_virtual_farm.Session.Events.{dispose}
use gps_device_virtual_farm.Session.Accounts.Steps.{Step, Steps, Steps-Accounts}
use gps_device_virtual_farm.MinHeap
use gps_device_virtual_farm.Fleet.{
  idle, running, Fleet, FleetConfig, visit, add_sessions, schedule_pump, activate, start,
  dispose_all, stop_batch, stop, resume_stop, is_idle,
}
use gps_device_virtual_farm.Fleet.Pump.{
  Found, nothing, due_entry, lost, is_stale, without_first, find_due, try_handle_due, pump_loop,
  pump,
}
use gps_device_virtual_farm.Fleet.Balance.{
  IsBalanced, Balanced, visit-Balanced, try_handle_due-KeepsAccounts, dispose-KeepsAccounts,
  add_session-Balanced, IsBalanced-set,
}

-- A result is balanced if there is one.
abbrev IfSome : Option Fleet → Type 0
IfSome none = Unit
IfSome (some f) = Balanced f

add_sessions-Balanced :
    (config : FleetConfig) (net : Net) (started_at index count : ℕ) (f : Fleet)
    → Balanced f
    → IfSome (add_sessions config net started_at index count f)
unfolding add_sessions
add_sessions-Balanced config net started_at index zero f h = h
add_sessions-Balanced config net started_at index (suc count) f h =
    elim (Option-cases (generate_imei index)) [
      | inl e ↦ rw (e, add_sessions) tt
      | inr (imei, e) ↦
          rw (e, add_sessions)
            (add_sessions-Balanced config net started_at (suc index) count _
              (add_session-Balanced config net started_at index imei f h))
    ]

Balanced-schedule_pump : (delay : ℕ) (f : Fleet) → Balanced f → Balanced (schedule_pump delay f)
unfolding schedule_pump
Balanced-schedule_pump delay f h = holds_if Balanced f.farm.running h h

activate-Balanced : (f : Fleet) → Balanced f → IfSome (activate f)
unfolding activate
activate-Balanced f h =
    holds_if IfSome (not f.farm.running) tt
      (holds_if IfSome (f.pump_timer || f.metrics_timer) h (Balanced-schedule_pump 0 f h))

dispose_all-Balanced :
    (world : ℕ → Net) (index count : ℕ) (f : Fleet)
    → Balanced f
    → Balanced (dispose_all world index count f)
unfolding dispose_all
dispose_all-Balanced world index zero f h = h
dispose_all-Balanced world index (suc count) f h =
    dispose_all-Balanced world (suc index) count _
      (visit-Balanced index (world index) dispose f dispose-KeepsAccounts h)

stop_batch-Balanced :
    (world : ℕ → Net) (start : ℕ) (f : Fleet) → Balanced f → Balanced (stop_batch world start f)
unfolding stop_batch
stop_batch-Balanced world begin f h =
    let end = min (begin + 1000) (length f.sessions) in
    let after = dispose_all-Balanced world begin (end - begin) f h in
    let both = dispose_all world begin (end - begin) f in
    let same : IsBalanced both.farm both.sessions = record {
      states = after.states;
      sockets = after.sockets;
      serials = after.serials;
    } in
    holds_if Balanced (ltb end (length f.sessions))
      {x = record both { awaiting = both.awaiting ++ end ∷ [] }} {y = record both { status = idle }}
      (record { states = same.states; sockets = same.sockets; serials = same.serials })
      (record { states = same.states; sockets = same.sockets; serials = same.serials })

resume_stop-Balanced : (world : ℕ → Net) (f : Fleet) → Balanced f → Balanced (resume_stop world f)
unfolding resume_stop
resume_stop-Balanced world f h = elim (List-cases f.awaiting) [
  | inl e ↦ rw (e, resume_stop) h
  | inr (begin, later, e) ↦
      rw (e, resume_stop)
        (stop_batch-Balanced world begin (record f { awaiting = later })
          (record { states = h.states; sockets = h.sockets; serials = h.serials }))
]
  where
    List-cases : (xs : List ℕ) → (xs ≡ []) ⊎ ((x : ℕ) × (ys : List ℕ) × (xs ≡ x ∷ ys))
    List-cases [] = inl refl
    List-cases (x ∷ xs) = inr (x, xs, refl)

stop-Balanced : (world : ℕ → Net) (f : Fleet) → Balanced f → Balanced (stop world f)
unfolding stop
stop-Balanced world f h = holds_if Balanced (not f.farm.running && is_idle f.status) h (
    stop_batch-Balanced world 0 _
      (record { states = h.states; sockets = h.sockets; serials = h.serials }))

-- The fleet that the search for an entry leaves.
abbrev FoundBalanced : Found → Type 0
FoundBalanced (nothing f) = Balanced f
FoundBalanced (due_entry e f) = Balanced f
FoundBalanced lost = Unit

Balanced-without_first : (f : Fleet) → Balanced f → Balanced (without_first f)
unfolding without_first
Balanced-without_first f h = record { states = h.states; sockets = h.sockets; serials = h.serials }

find_due-Balanced : (fuel now : ℕ) (f : Fleet) → Balanced f → FoundBalanced (find_due fuel now f)
unfolding find_due
find_due-Balanced zero now f h = elim (Option-cases (MinHeap.peek f.farm.heap)) [
  | inl e ↦ rw (e, find_due) h
  | inr (x, e) ↦ rw (e, find_due) tt
]
find_due-Balanced (suc fuel) now f h =
    let popped = Balanced-without_first f h in
    elim (Option-cases (MinHeap.peek f.farm.heap)) [
      | inl e ↦ rw (e, find_due) h
      | inr (x, e) ↦
          rw (e, find_due)
            (holds_if FoundBalanced (ltb now x.at) h (
              holds_if FoundBalanced (is_stale f.sessions x)
                (find_due-Balanced fuel now (without_first f) popped) popped))
    ]

pub Found-cases :
    (x : Found)
    → ((f : Fleet) × (x ≡ nothing f))
      ⊎ ((e : Entry) × (f : Fleet) × (x ≡ due_entry e f))
      ⊎ (x ≡ lost)
Found-cases (nothing f) = inl (f, refl)
Found-cases (due_entry e f) = inr (inl (e, f, refl))
Found-cases lost = inr (inr refl)

abbrev LeftBalanced : Option (ℕ × Fleet) → Type 0
LeftBalanced none = Unit
LeftBalanced (some r) = Balanced r.1

pump_loop-Balanced :
    (world : ℕ → Net) (now left : ℕ) (f : Fleet)
    → Balanced f
    → LeftBalanced (pump_loop world now left f)
unfolding pump_loop
pump_loop-Balanced world now zero f h = h
pump_loop-Balanced world now (suc left) f h =
    let found = find_due-Balanced (length f.farm.heap) now f h in
    elim (Found-cases (find_due (length f.farm.heap) now f)) [
      | inl (after, e) ↦ rw (e, pump_loop) (subst FoundBalanced e found)
      | inr (inl (x, after, e)) ↦
          rw (e, pump_loop)
            (holds_if LeftBalanced (visit x.index (world left) (try_handle_due now) after).0 tt (
              pump_loop-Balanced world now left
                (visit x.index (world left) (try_handle_due now) after).1
                (visit-Balanced x.index (world left) (try_handle_due now) after
                  (try_handle_due-KeepsAccounts now) (subst FoundBalanced e found))))
      | inr (inr e) ↦ rw (e, pump_loop) tt
    ]

pump-Balanced :
    (world : ℕ → Net) (now clock : ℕ) (f : Fleet) → Balanced f → IfSome (pump world now clock f)
unfolding pump
pump-Balanced world now clock f h =
    let begun = record f { pump_timer = false } in
    holds_if IfSome (not f.farm.running) h (elim (Option-cases (pump_loop world now 5000 begun)) [
      | inl e ↦ rw e tt
      | inr (r, e) ↦
          let after = subst LeftBalanced e (pump_loop-Balanced world now 5000 begun h) in
          rw e (
            Balanced-schedule_pump _ _
              (record { states = after.states; sockets = after.sockets; serials = after.serials }))
    ])

-- The steps of a farm that was started: its own methods, where a `stop` goes batch by batch, and the
-- events of one session.
pub data FleetStep : Fleet → Fleet → Type 0 where
  activates : (f g : Fleet) → activate f ≡ some g → FleetStep f g
  pumps :
      (world : ℕ → Net) (now clock : ℕ) (f g : Fleet)
      → pump world now clock f ≡ some g
      → FleetStep f g
  stops : (world : ℕ → Net) (f : Fleet) → FleetStep f (stop world f)
  goes_on_stopping : (world : ℕ → Net) (f : Fleet) → FleetStep f (resume_stop world f)
  session_steps :
      (i : ℕ) (s : Session) (net : Net) (f : Fleet) (after : Ctx)
      → get_elem? f.sessions i ≡ some s
      → Step (record { session = s; farm = f.farm; net = net }) after
      → FleetStep f (record f { farm = after.farm; sessions = set f.sessions i after.session })

pub data FleetSteps : Fleet → Fleet → Type 0 where
  done : {f : Fleet} → FleetSteps f f
  next : {f g h : Fleet} → FleetStep f g → FleetSteps g h → FleetSteps f h

FleetStep-Balanced : {f g : Fleet} → FleetStep f g → Balanced f → Balanced g
FleetStep-Balanced (activates f g e) h = subst IfSome e (activate-Balanced f h)
FleetStep-Balanced (pumps world now clock f g e) h =
    subst IfSome e (pump-Balanced world now clock f h)
FleetStep-Balanced (stops world f) h = stop-Balanced world f h
FleetStep-Balanced (goes_on_stopping world f) h = resume_stop-Balanced world f h
FleetStep-Balanced (session_steps i s net f after e step) h =
    IsBalanced-set f.farm f.sessions i s net after e
      (λ others others_tcp a. Steps-Accounts others others_tcp (Steps.next step Steps.done) a) h

FleetSteps-Balanced : {f g : Fleet} → FleetSteps f g → Balanced f → Balanced g
FleetSteps-Balanced done h = h
FleetSteps-Balanced (next step steps) h = FleetSteps-Balanced steps (FleetStep-Balanced step h)

-- `new DeviceFarm(config)`
abbrev pub new_fleet : Fleet
new_fleet = record {
  farm = record {
    running = false;
    heap = [];
    stats = record {
      tcp_connected = 0;
      packets_sent = 0;
      login_packets = 0;
      heartbeat_packets = 0;
      location_packets = 0;
      command_responses = 0;
      acknowledgements = 0;
      reconnects = 0;
      malformed_frames = 0;
      errors = 0;
      bytes_sent = 0;
      bytes_received = 0;
      scheduler_actions = 0;
    };
    state_counts = record {
      pending_count = 0;
      connecting_count = 0;
      login_sent_count = 0;
      online_count = 0;
      backoff_count = 0;
      stopped_count = 0;
    };
  };
  sessions = [];
  status = idle;
  pump_timer = false;
  pump_delay = 0;
  metrics_timer = false;
  awaiting = [];
}

new_fleet-Balanced : (b : Bool) → IsBalanced (record (new_fleet.farm) { running = b }) []
new_fleet-Balanced b = record { states = λ t. ground arith; sockets = refl; serials = tt }

start-Balanced :
    (config : FleetConfig) (net : Net) (defer_pump : Bool)
    → IfSome (start config net defer_pump new_fleet)
unfolding start
start-Balanced config net defer_pump =
    let begun = record new_fleet { farm = record (new_fleet.farm) { running = true } } in
    let filled =
      add_sessions-Balanced config net net.clock 0 config.device_count begun
        (new_fleet-Balanced true) in
    elim (Option-cases (add_sessions config net net.clock 0 config.device_count begun)) [
      | inl e ↦ rw e tt
      | inr (f, e) ↦
          let h = subst IfSome e filled in
          let ready : Balanced (record f { status = running }) = record {
            states = h.states;
            sockets = h.sockets;
            serials = h.serials;
          } in
          rw e (
            holds_if IfSome defer_pump ready
              (activate-Balanced (record f { status = running }) ready))
    ]

-- From the start of a new farm on, whatever its pump, its calls of `stop` and the events of its sessions do,
-- in any order, events between two batches of a `stop` included: the farm's count of each state is the number of its sessions in this state, its count of
-- connected sockets is the number of connected sessions, and each session's next serial number is one of
-- 1, …, 65535.
pub FleetSteps-IsBalanced :
    (config : FleetConfig) (net : Net) (defer_pump : Bool) (f g : Fleet)
    → start config net defer_pump new_fleet ≡ some f
    → FleetSteps f g
    → IsBalanced g.farm g.sessions
FleetSteps-IsBalanced config net defer_pump f g e steps =
    FleetSteps-Balanced steps (subst IfSome e (start-Balanced config net defer_pump))
