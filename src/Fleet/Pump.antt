-- ===== src/Fleet/Pump.antt =====
-- src/simulator/device-farm.js: the pump, which makes the sessions act whose time has come.
use gps_device_virtual_farm.Prelude.{
  ℕ, zero, suc, ◌+◌, ◌-◌, min, max, Bool, true, false, not, ◌||◌, Option, none, some, List, ltb,
  ◌==◌, if◌then◌else◌, length, get_elem?,
}
use gps_device_virtual_farm.MinHeap
use gps_device_virtual_farm.Farm.{Entry, entry_rank, no_entry, record_error}
use gps_device_virtual_farm.Session.{Session, Net, Ctx}
use gps_device_virtual_farm.Session.Events.{handle_due}
use gps_device_virtual_farm.Fleet.{Fleet, visit, schedule_pump}

-- What the loop meets next: nothing that is due, or an entry of a session that waits for it; the fleet is
-- without the entries that were taken off. `lost` would mean that the fuel ran out.
pub data Found : Type 0 where
  nothing : Fleet → Found
  due_entry : Entry → Fleet → Found
  lost : Found

-- `next.version !== next.session.scheduleVersion || next.session.disposed`
unfoldable pub is_stale : List Session → Entry → Bool
is_stale sessions e = elim (get_elem? sessions e.index) [
  | none ↦ true
  | some s ↦ not (e.version == s.schedule_version) || s.disposed
]

unfoldable pub without_first : Fleet → Fleet
without_first f = record f {
  farm = record (f.farm) { heap = (MinHeap.pop entry_rank no_entry f.farm.heap).1 };
}

-- The rounds that end in `continue`.
unfoldable pub find_due : ℕ → ℕ → Fleet → Found
find_due zero now f = elim (MinHeap.peek f.farm.heap) [ none ↦ nothing f | some e ↦ lost ]
find_due (suc fuel) now f =
    let rest = find_due fuel now (without_first f) in
    elim (MinHeap.peek f.farm.heap) [
      | none ↦ nothing f
      | some e ↦
          if ltb now e.at
          then nothing f
          else if is_stale f.sessions e
          then rest
          else due_entry e (without_first f)
    ]

-- The `try` block: an error of `handleDue` is caught and recorded.
unfoldable pub try_handle_due : ℕ → Ctx → Ctx
try_handle_due now c =
    let after = handle_due now c in
    if after.net.thrown
    then record after {
      farm = record_error after.farm;
      net = record (after.net) { thrown = false };
    }
    else after

-- The loop of `#pump`, from the actions that it may still take: those that are left, and the fleet.
-- `none` is an error that leaves the loop; it would also mean that the fuel of `find_due` ran out.
unfoldable pub pump_loop : (ℕ → Net) → ℕ → ℕ → Fleet → Option (ℕ × Fleet)
pump_loop world now zero f = some (0, f)
pump_loop world now (suc left) f = elim (find_due (length f.farm.heap) now f) [
  | nothing after ↦ some (suc left, after)
  | due_entry e after ↦
      let (thrown, next) = visit e.index (world left) (try_handle_due now) after in
      let rest = pump_loop world now left next in if thrown then none else rest
  | lost ↦ none
]

-- The delay to the next call; `clock` is `now()` at the end.
unfoldable pub next_delay : ℕ → ℕ → Fleet → ℕ
next_delay left clock f =
    if left == 0
    then 0
    else elim (MinHeap.peek f.farm.heap) [ none ↦ 100 | some e ↦ min 100 (max 1 (e.at - clock)) ]

-- `#pump()`; 5000 is MAX_ACTIONS_PER_PUMP. `none` is an error that leaves the loop: the timer is not set
-- then.
unfoldable pub pump : (ℕ → Net) → ℕ → ℕ → Fleet → Option Fleet
pump world now clock f =
    let begun = record f { pump_timer = false } in
    if not f.farm.running then some begun else elim (pump_loop world now 5000 begun) [
      | none ↦ none
      | some r ↦
          let after = r.1 in
          let stats = record (after.farm.stats) {
            scheduler_actions = after.farm.stats.scheduler_actions + (5000 - r.0);
          } in
          some (
            schedule_pump (next_delay r.0 clock after)
              (record after { farm = record (after.farm) { stats = stats } }))
    ]
