-- ===== src/Fleet/Ends.antt =====
-- src/simulator/device-farm.js: the pump ends.
use mathlib.Core.Path.{subst}
use gps_device_virtual_farm.Prelude.{
  ℕ, zero, suc, ◌+◌, ◌≤◌, ◌≡◌, refl, inl, inr, true, false, not, Option, none, some, List, [], ◌∷◌,
  arith, ltb, Option-cases, holds_if, holds_cases, get_elem?, length,
}
use gps_device_virtual_farm.MinHeap
use gps_device_virtual_farm.MinHeap.Length.{length-pop}
use gps_device_virtual_farm.Farm.{Entry, entry_rank, no_entry}
use gps_device_virtual_farm.Session.{Net, Ctx}
use gps_device_virtual_farm.Session.Events.{handle_due}
use gps_device_virtual_farm.Fleet.{Fleet, visit, schedule_pump}
use gps_device_virtual_farm.Fleet.Pump.{
  Found, lost, is_stale, without_first, find_due, try_handle_due, pump_loop, pump,
}
use gps_device_virtual_farm.Fleet.Run.{Found-cases}

abbrev IsFound : Found → Type 0
IsFound lost = ⊥
IsFound _ = Unit

without_first-shorter :
    (f : Fleet) (e : Entry)
    → MinHeap.peek f.farm.heap ≡ some e
    → length (without_first f).farm.heap + 1 ≡ length f.farm.heap
unfolding without_first
without_first-shorter f e h =
    omega (arith, length-pop entry_rank no_entry f.farm.heap, filled f.farm.heap e h)
  where
    filled : (xs : List Entry) (e : Entry) → get_elem? xs 0 ≡ some e → 1 ≤ length xs
    filled [] e h = absurd (ground (arith, h))
    filled (x ∷ xs) e h = omega arith

find_due-IsFound :
    (fuel now : ℕ) (f : Fleet) → length f.farm.heap ≤ fuel → IsFound (find_due fuel now f)
unfolding find_due
find_due-IsFound zero now f h = elim (Option-cases (MinHeap.peek f.farm.heap)) [
  | inl e ↦ rw (e, find_due) tt
  | inr (x, e) ↦ absurd (omega (arith, h, without_first-shorter f x e))
]
find_due-IsFound (suc fuel) now f h = elim (Option-cases (MinHeap.peek f.farm.heap)) [
  | inl e ↦ rw (e, find_due) tt
  | inr (x, e) ↦
      rw (e, find_due)
        (holds_if IsFound (ltb now x.at) tt (
          holds_if IsFound (is_stale f.sessions x)
            (find_due-IsFound fuel now (without_first f)
              (omega (arith, h, without_first-shorter f x e)))
            tt))
]

-- No error of a session leaves the loop.
try_handle_due-caught : (now : ℕ) (c : Ctx) → (try_handle_due now c).net.thrown ≡ false
unfolding try_handle_due
try_handle_due-caught now c =
    holds_cases (λ (d : Ctx). d.net.thrown ≡ false) (handle_due now c).net.thrown (λ _. refl)
      (λ calm. calm)

visit-caught :
    (i : ℕ) (net : Net) (now : ℕ) (f : Fleet) → (visit i net (try_handle_due now) f).0 ≡ false
unfolding visit
visit-caught i net now f = elim (Option-cases (get_elem? f.sessions i)) [
  | inl absent ↦ rw (absent, visit) refl
  | inr (s, e) ↦
      rw (e, visit)
        (try_handle_due-caught now
          (record { session = s; farm = f.farm; net = record net { thrown = false } }))
]

pump_loop-ends :
    (world : ℕ → Net) (now left : ℕ) (f : Fleet)
    → (r : ℕ × Fleet) × (pump_loop world now left f ≡ some r) × (r.0 ≤ left)
unfolding pump_loop
pump_loop-ends world now zero f = ((0, f), refl, omega arith)
pump_loop-ends world now (suc left) f =
    let found = find_due-IsFound (length f.farm.heap) now f (omega arith) in
    elim (Found-cases (find_due (length f.farm.heap) now f)) [
      | inl (after, e) ↦ ((suc left, after), rw (e, pump_loop) refl, omega arith)
      | inr (inl (x, after, e)) ↦
          let (r, same, less) =
            pump_loop-ends world now left
              (visit x.index (world left) (try_handle_due now) after).1 in
          (
            r,
            rw (e, pump_loop, visit-caught x.index (world left) now after) same,
            omega (arith, less),
          )
      | inr (inr e) ↦ absurd (subst IsFound e found)
    ]

-- A pump that returns, and has set its timer if the farm runs.
abbrev Returns : Option Fleet → Type 0
Returns none = ⊥
Returns (some g) = g.farm.running ≡ true → g.pump_timer ≡ true

Returns-schedule_pump : (delay : ℕ) (f : Fleet) → Returns (some (schedule_pump delay f))
unfolding schedule_pump
Returns-schedule_pump delay f = λ on. ground (arith, on)

Returns-some :
    (r : Option Fleet)
    → Returns r
    → (g : Fleet) × (r ≡ some g) × (g.farm.running ≡ true → g.pump_timer ≡ true)
Returns-some (some g) h = (g, refl, h)
Returns-some none h = elim h [ ]

pump-Returns : (world : ℕ → Net) (now clock : ℕ) (f : Fleet) → Returns (pump world now clock f)
unfolding pump
pump-Returns world now clock f =
    let begun = record f { pump_timer = false } in
    let (r, e, less) = pump_loop-ends world now 5000 begun in
    holds_cases Returns (not f.farm.running) (λ halted on. absurd (ground (arith, halted, on)))
      (λ _. rw e (Returns-schedule_pump _ _))

-- The pump ends, for every farm and whatever its sessions do, since it takes 5000 actions at most and
-- drops finitely many entries between two of them, and since it catches the errors that they throw; and
-- if the farm runs then, the pump has set its timer again.
pub pump-ends :
    (world : ℕ → Net) (now clock : ℕ) (f : Fleet)
    → (g : Fleet) × (pump world now clock f ≡ some g)
      × (g.farm.running ≡ true → g.pump_timer ≡ true)
pump-ends world now clock f = Returns-some (pump world now clock f) (pump-Returns world now clock f)
