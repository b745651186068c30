-- ===== src/Fleet/Stop.antt =====
-- src/simulator/device-farm.js: `stop` disposes of every session, batch by batch, and ends.
use mathlib.Core.Path.{subst}
use gps_device_virtual_farm.Prelude.{
  ℕ, zero, suc, ◌+◌, ◌-◌, ◌*◌, ◌/◌, ◌≤◌, ◌<◌, ◌≡◌, ◌⊎◌, refl, sym, ap, ◌∙◌, inl, inr, min, true,
  false, not, ◌&&◌, none, some, some_injective, List, [], ◌∷◌, ◌++◌, arith, ltb, holds_if,
  holds_else, holds_cases, Option-cases, length, get_elem?, set,
}
use gps_device_virtual_farm.Farm.{stopped, same_state, set_session_state, record_socket_down}
use gps_device_virtual_farm.Session.{Session, Net, Ctx, transport_unavailable}
use gps_device_virtual_farm.Session.Handlers.{
  mark_socket_disconnected, destroy_socket, set_state, call_road,
}
use gps_device_virtual_farm.Session.Events.{dispose}
use gps_device_virtual_farm.MinHeap
use gps_device_virtual_farm.Fleet.{
  idle, stopping, Fleet, is_idle, visit, dispose_all, stop_batch, stop, resume_stop,
}

-- The calls of `stop` that wait go on, so many times.
pub resume_times : (ℕ → Net) → ℕ → Fleet → Fleet
resume_times world zero f = f
resume_times world (suc n) f = resume_times world n (resume_stop world f)

-- A farm that does not run, and whose heap is empty.
abbrev IsHalted : Ctx → Type 0
IsHalted c = (c.farm.running ≡ false) × (c.farm.heap ≡ [])

abbrev IsGone : Ctx → Type 0
IsGone c = (c.session.disposed ≡ true) × IsHalted c

IsGone-destroy : (c : Ctx) → IsGone c → IsGone (destroy_socket c)
unfolding destroy_socket mark_socket_disconnected record_socket_down
IsGone-destroy c h = holds_if IsGone (not c.session.socket_connected) h h

IsGone-set_state : (c : Ctx) → IsGone c → IsGone (set_state stopped c)
unfolding set_state set_session_state
IsGone-set_state c h = holds_if IsGone (same_state c.session.state stopped) h h

IsHalted-call_road : (c : Ctx) → IsHalted c → IsHalted (call_road transport_unavailable c)
unfolding call_road
IsHalted-call_road c h = holds_if IsHalted c.session.has_road_model h h

-- A session that was visited is disposed, and the farm stays halted.
dispose-IsGone : (c : Ctx) → IsHalted c → IsGone (dispose c)
unfolding dispose
dispose-IsGone c h =
    let c1 = call_road transport_unavailable c in
    let c2 = record c1 {
      session = record (c1.session) {
        disposed = true;
        schedule_version = c1.session.schedule_version + 1;
      };
    } in
    holds_cases IsGone c.session.disposed (λ gone. (gone, h))
      (λ _. IsGone-set_state (destroy_socket c2) (IsGone-destroy c2 (refl, IsHalted-call_road c h)))

-- The first sessions are disposed, of so many.
abbrev FirstGone : ℕ → List Session → Type 0
FirstGone k ss = (j : ℕ) (s : Session) → get_elem? ss j ≡ some s → j < k → s.disposed ≡ true

FirstGone-set :
    (ss : List Session) (k : ℕ) (new : Session)
    → FirstGone k ss
    → new.disposed ≡ true
    → FirstGone (k + 1) (set ss k new)
FirstGone-set [] k new h gone j s e lt = absurd (ground (arith, e))
FirstGone-set (x ∷ ss) zero new h gone zero s e lt =
    ap (λ (s : Session). s.disposed) (sym (some_injective e)) ∙ gone
FirstGone-set (x ∷ ss) zero new h gone (suc j) s e lt = absurd (omega (arith, lt))
FirstGone-set (x ∷ ss) (suc k) new h gone zero s e lt = h 0 s e (omega arith)
FirstGone-set (x ∷ ss) (suc k) new h gone (suc j) s e lt =
    FirstGone-set ss k new (λ i t p q. h (suc i) t p (omega (arith, q))) gone j s e
      (omega (arith, lt))

length-set : (ss : List Session) (k : ℕ) (new : Session) → length (set ss k new) ≡ length ss
length-set [] k new = refl
length-set (x ∷ ss) zero new = refl
length-set (x ∷ ss) (suc k) new = ap suc (length-set ss k new)

FirstGone-absent :
    (ss : List Session) (k : ℕ) → get_elem? ss k ≡ none → FirstGone k ss → FirstGone (k + 1) ss
FirstGone-absent [] k absent h j s e lt = absurd (ground (arith, e))
FirstGone-absent (x ∷ ss) zero absent h j s e lt = absurd (ground (arith, absent))
FirstGone-absent (x ∷ ss) (suc k) absent h zero s e lt = h 0 s e (omega arith)
FirstGone-absent (x ∷ ss) (suc k) absent h (suc j) s e lt =
    FirstGone-absent ss k absent (λ i t p q. h (suc i) t p (omega (arith, q))) j s e
      (omega (arith, lt))

-- What `stop` keeps from batch to batch.
record IsStopping (calls : List ℕ) (count k : ℕ) (f : Fleet) : Type 0 where
  waiting : f.awaiting ≡ calls
  counted : length f.sessions ≡ count
  halted : (f.farm.running ≡ false) × (f.farm.heap ≡ [])
  no_timers : (f.pump_timer ≡ false) × (f.metrics_timer ≡ false)
  gone : FirstGone k f.sessions

module _ (calls : List ℕ) (count : ℕ) where
  IsStopping-visit :
      (net : Net) (k : ℕ) (f : Fleet)
      → IsStopping calls count k f
      → IsStopping calls count (k + 1) (visit k net dispose f).1
  unfolding visit
  IsStopping-visit net k f h = elim (Option-cases (get_elem? f.sessions k)) [
    | inl absent ↦
        rw (absent, visit)
          (record {
            waiting = h.waiting;
            counted = h.counted;
            halted = h.halted;
            no_timers = h.no_timers;
            gone = FirstGone-absent f.sessions k absent h.gone;
          })
    | inr (s, e) ↦
        let c : Ctx = record { session = s; farm = f.farm; net = record net { thrown = false } } in
        let (gone, halted) = dispose-IsGone c h.halted in
        rw (e, visit)
          (record {
            waiting = h.waiting;
            counted = length-set f.sessions k (dispose c).session ∙ h.counted;
            halted = halted;
            no_timers = h.no_timers;
            gone = FirstGone-set f.sessions k (dispose c).session h.gone gone;
          })
  ]

  IsStopping-dispose_all :
      (world : ℕ → Net) (k n : ℕ) (f : Fleet)
      → IsStopping calls count k f
      → IsStopping calls count (k + n) (dispose_all world k n f)
  unfolding dispose_all
  IsStopping-dispose_all world k zero f h = subst (λ m. IsStopping calls count m f) (omega arith) h
  IsStopping-dispose_all world k (suc n) f h =
      subst
        (λ m.
          IsStopping calls count m (dispose_all world (suc k) n (visit k (world k) dispose f).1))
        (omega arith)
        (IsStopping-dispose_all world (suc k) n (visit k (world k) dispose f).1 (
          subst (λ m. IsStopping calls count m (visit k (world k) dispose f).1) (omega arith)
            (IsStopping-visit (world k) k f h)))

-- A farm that was stopped: every session is disposed, no entry and no timer is left, and no call of
-- `stop` goes on.
pub record IsStopped (count : ℕ) (f : Fleet) : Type 0 where
  pub at_rest : f.status ≡ idle
  pub ended : f.awaiting ≡ []
  pub all_there : length f.sessions ≡ count
  pub halted : (f.farm.running ≡ false) × (f.farm.heap ≡ [])
  pub no_timers : (f.pump_timer ≡ false) × (f.metrics_timer ≡ false)
  pub all_disposed : (j : ℕ) (s : Session) → get_elem? f.sessions j ≡ some s → s.disposed ≡ true

-- The call has ended, or it waits with at most so many batches to come.
abbrev Within : ℕ → ℕ → Fleet → Type 0
Within count left f =
    IsStopped count f
    ⊎ ((begin : ℕ) × IsStopping (begin ∷ []) count begin f
        × (begin < count)
        × (count ≤ begin + left * 1000))

get_elem?-lt : (ss : List Session) (j : ℕ) (s : Session) → get_elem? ss j ≡ some s → j < length ss
get_elem?-lt [] j s e = absurd (ground (arith, e))
get_elem?-lt (x ∷ ss) zero s e = omega arith
get_elem?-lt (x ∷ ss) (suc j) s e = omega (arith, get_elem?-lt ss j s e)

Within-stop_batch :
    (world : ℕ → Net) (count begin left : ℕ) (f : Fleet)
    → IsStopping [] count begin f
    → begin ≤ count
    → count ≤ begin + suc left * 1000
    → Within count left (stop_batch world begin f)
unfolding stop_batch
Within-stop_batch world count begin left f h low high =
    let end = min (begin + 1000) (length f.sessions) in
    let after = dispose_all world begin (end - begin) f in
    let k : IsStopping [] count (begin + (end - begin)) after =
      IsStopping-dispose_all [] count world begin (end - begin) f h in
    let reached : begin + (end - begin) ≡ end = omega (arith, h.counted, low) in
    holds_cases (Within count left) (ltb end (length f.sessions))
      {x = record after { awaiting = after.awaiting ++ end ∷ [] }}
      {y = record after { status = idle }}
      (λ more. inr (
        end,
        record {
          waiting = ap (λ xs. xs ++ end ∷ []) k.waiting;
          counted = k.counted;
          halted = k.halted;
          no_timers = k.no_timers;
          gone = subst (λ m. FirstGone m after.sessions) reached k.gone;
        },
        ground (arith, more, h.counted),
        ground (arith, more, h.counted, high),
      ))
      (λ last. inl (record {
        at_rest = refl;
        ended = k.waiting;
        all_there = k.counted;
        halted = k.halted;
        no_timers = k.no_timers;
        all_disposed = λ j s e. k.gone j s e (
            ground (arith, last, h.counted, k.counted, reached, get_elem?-lt after.sessions j s e));
      }))

Within-resume_stop :
    (world : ℕ → Net) (count left : ℕ) (f : Fleet)
    → Within count (suc left) f
    → Within count left (resume_stop world f)
unfolding resume_stop
Within-resume_stop world count left f (inl h) = rw (h.ended, resume_stop) (inl h)
Within-resume_stop world count left f (inr (begin, h, low, high)) =
    rw (h.waiting, resume_stop)
      (Within-stop_batch world count begin left (record f { awaiting = [] })
        (record {
          waiting = refl;
          counted = h.counted;
          halted = h.halted;
          no_timers = h.no_timers;
          gone = h.gone;
        })
        (omega (arith, low)) high)

IsStopped-resume_times :
    (world : ℕ → Net) (count left : ℕ) (f : Fleet)
    → Within count left f
    → IsStopped count (resume_times world left f)
unfolding resume_times
IsStopped-resume_times world count zero f (inl h) = h
IsStopped-resume_times world count zero f (inr (begin, h, low, high)) =
    absurd (omega (arith, low, high))
IsStopped-resume_times world count (suc left) f h =
    IsStopped-resume_times world count left (resume_stop world f)
      (Within-resume_stop world count left f h)

-- `stop` ends and leaves nothing behind: called on a farm that runs, with no other call of it under way,
-- and where no other event comes between its batches, it has ended after it went on once for each
-- thousand of the sessions at most. Then the farm is idle and does not run, its heap is empty, both timers
-- are off, and each of its sessions, whose number is the same, is disposed.
pub stop-IsStopped :
    (world : ℕ → Net) (f : Fleet)
    → f.farm.running ≡ true
    → f.awaiting ≡ []
    → IsStopped (length f.sessions) (resume_times world (length f.sessions / 1000) (stop world f))
unfolding stop
stop-IsStopped world f on calm =
    let halted : Fleet = record f {
      farm = record (f.farm) { running = false; heap = MinHeap.clear f.farm.heap };
      status = stopping;
      pump_timer = false;
      metrics_timer = false;
    } in
    IsStopped-resume_times world (length f.sessions) (length f.sessions / 1000) (stop world f) (
      holds_else (Within (length f.sessions) (length f.sessions / 1000))
        (not f.farm.running && is_idle f.status) f (ground (arith, on))
        (Within-stop_batch world (length f.sessions) 0 (length f.sessions / 1000) halted
          (record {
            waiting = calm;
            counted = refl;
            halted = (refl, refl);
            no_timers = (refl, refl);
            gone = λ j s e lt. absurd (omega (arith, lt));
          })
          (omega arith) (omega arith)))
