-- ===== src/Fleet/Balance.antt =====
-- src/simulator/device-farm.js: the farm's counts are those of its sessions, taken together.
use mathlib.Core.Path.{subst}
use gps_device_virtual_farm.Prelude.{
  ℕ, zero, suc, ◌+◌, ◌-◌, ◌*◌, ◌/◌, ◌≤◌, ◌<◌, ◌≡◌, ap, inl, inr, Bool, some, List, [], ◌∷◌, ◌++◌,
  arith, ltb, if◌then◌else◌, Option-cases, some_injective, All, All-append, get_elem?, set,
  holds_if, false,
}
use gps_device_virtual_farm.Farm.{
  SessionState, pending, StateCounts, Farm, count_of, set_count, same_state, record_error,
}
use gps_device_virtual_farm.Session.{Session, Net, Ctx}
use gps_device_virtual_farm.Session.Handlers.{schedule}
use gps_device_virtual_farm.Session.Events.{handle_due, dispose}
use gps_device_virtual_farm.Session.Accounts.{Accounts, schedule-Accounts}
use gps_device_virtual_farm.Session.Accounts.Steps.{Step, Steps, Steps-Accounts}
use gps_device_virtual_farm.Fleet.Pump.{try_handle_due}
use gps_device_virtual_farm.Fleet.{Fleet, FleetConfig, new_session, visit, add_session}

abbrev one_if : Bool → ℕ
one_if b = if b then 1 else 0

-- How many sessions are in a state, and how many are connected.
abbrev pub sessions_in : SessionState → List Session → ℕ
sessions_in t [] = 0
sessions_in t (s ∷ ss) = one_if (same_state s.state t) + sessions_in t ss

abbrev pub connected : List Session → ℕ
connected [] = 0
connected (s ∷ ss) = one_if s.socket_connected + connected ss

-- The farm's counts are right, and each session's next serial number is one of 1, …, 65535.
pub record IsBalanced (farm : Farm) (sessions : List Session) : Type 0 where
  pub states : (t : SessionState) → count_of farm.state_counts t ≡ sessions_in t sessions
  pub sockets : farm.stats.tcp_connected ≡ connected sessions
  pub serials : All (λ s. (1 ≤ s.serial) × (s.serial < 65536)) sessions

sessions_in-set :
    (t : SessionState) (ss : List Session) (i : ℕ) (old new : Session)
    → get_elem? ss i ≡ some old
    → sessions_in t (set ss i new) + one_if (same_state old.state t)
      ≡ sessions_in t ss + one_if (same_state new.state t)
sessions_in-set t [] i old new e = absurd (ground (arith, e))
sessions_in-set t (s ∷ ss) zero old new e =
    omega (arith, ap (λ x. one_if (same_state x.state t)) (some_injective e))
sessions_in-set t (s ∷ ss) (suc i) old new e = omega (arith, sessions_in-set t ss i old new e)

connected-set :
    (ss : List Session) (i : ℕ) (old new : Session)
    → get_elem? ss i ≡ some old
    → connected (set ss i new) + one_if old.socket_connected
      ≡ connected ss + one_if new.socket_connected
connected-set [] i old new e = absurd (ground (arith, e))
connected-set (s ∷ ss) zero old new e =
    omega (arith, ap (λ x. one_if x.socket_connected) (some_injective e))
connected-set (s ∷ ss) (suc i) old new e = omega (arith, connected-set ss i old new e)

-- A session is one of those counted.
own-le :
    (t : SessionState) (ss : List Session) (i : ℕ) (s : Session)
    → get_elem? ss i ≡ some s
    → (one_if (same_state s.state t) ≤ sessions_in t ss)
      × (one_if s.socket_connected ≤ connected ss)
own-le t [] i s e = absurd (ground (arith, e))
own-le t (x ∷ ss) zero s e = (
  omega (arith, ap (λ x. one_if (same_state x.state t)) (some_injective e)),
  omega (arith, ap (λ x. one_if x.socket_connected) (some_injective e)),
)
own-le t (x ∷ ss) (suc i) s e =
    let (states, sockets) = own-le t ss i s e in (omega (arith, states), omega (arith, sockets))

abbrev HasSerial : Session → Type 0
HasSerial s = (1 ≤ s.serial) × (s.serial < 65536)

All-set :
    (ss : List Session) (i : ℕ) (new : Session)
    → All HasSerial ss
    → HasSerial new
    → All HasSerial (set ss i new)
All-set [] i new a h = tt
All-set (s ∷ ss) zero new a h = (h, a.1)
All-set (s ∷ ss) (suc i) new a h = (a.0, All-set ss i new a.1 h)

All-get :
    (ss : List Session) (i : ℕ) (s : Session)
    → All HasSerial ss
    → get_elem? ss i ≡ some s
    → HasSerial s
All-get [] i s a e = absurd (ground (arith, e))
All-get (x ∷ ss) zero s a e = subst HasSerial (some_injective e) a.0
All-get (x ∷ ss) (suc i) s a e = All-get ss i s a.1 e

-- A method of a session that keeps the accounts, whatever those of the others are.
abbrev pub KeepsAccounts : (Ctx → Ctx) → Type 0
KeepsAccounts method =
    (others : SessionState → ℕ) (others_tcp : ℕ) (c : Ctx)
    → Accounts others others_tcp c
    → Accounts others others_tcp (method c)

abbrev pub Balanced : Fleet → Type 0
Balanced f = IsBalanced f.farm f.sessions

-- What a session's step makes of a balanced farm.
pub IsBalanced-set :
    (farm : Farm) (ss : List Session) (i : ℕ) (s : Session) (net : Net) (after : Ctx)
    → get_elem? ss i ≡ some s
    → ((others : SessionState → ℕ) (others_tcp : ℕ)
        → Accounts others others_tcp (record { session = s; farm = farm; net = net })
        → Accounts others others_tcp after)
    → IsBalanced farm ss
    → IsBalanced after.farm (set ss i after.session)
IsBalanced-set farm ss i s net after e keeps h =
    let others : SessionState → ℕ = λ t. sessions_in t ss - one_if (same_state s.state t) in
    let others_tcp = connected ss - one_if s.socket_connected in
    let serial = All-get ss i s h.serials e in
    let (states, sockets, low, high) = keeps others others_tcp (
      λ t. omega (arith, h.states t, (own-le t ss i s e).0),
      omega (arith, h.sockets, (own-le pending ss i s e).1),
      serial.0,
      serial.1,
    ) in
    record {
      states = λ t.
          omega (arith, states t, sessions_in-set t ss i s after.session e, (own-le t ss i s e).0);
      sockets =
          omega (arith, sockets, connected-set ss i s after.session e, (own-le pending ss i s e).1);
      serials = All-set ss i after.session h.serials (low, high);
    }

pub visit-Balanced :
    (i : ℕ) (net : Net) (method : Ctx → Ctx) (f : Fleet)
    → KeepsAccounts method
    → Balanced f
    → Balanced (visit i net method f).1
unfolding visit
visit-Balanced i net method f keeps h = elim (Option-cases (get_elem? f.sessions i)) [
  | inl absent ↦ rw (absent, visit) h
  | inr (s, e) ↦
      let c : Ctx = record { session = s; farm = f.farm; net = record net { thrown = false } } in
      rw (e, visit)
        (IsBalanced-set f.farm f.sessions i s (record net { thrown = false }) (method c) e
          (λ others others_tcp a. keeps others others_tcp c a) h)
]

-- The methods that the farm calls.
pub try_handle_due-KeepsAccounts : (now : ℕ) → KeepsAccounts (try_handle_due now)
unfolding try_handle_due record_error
try_handle_due-KeepsAccounts now others others_tcp c h =
    let after = Steps-Accounts others others_tcp (Steps.next (Step.came_due now c) Steps.done) h in
    holds_if (Accounts others others_tcp) (handle_due now c).net.thrown after after

pub dispose-KeepsAccounts : KeepsAccounts dispose
dispose-KeepsAccounts others others_tcp c h =
    Steps-Accounts others others_tcp (Steps.next (Step.let_go c) Steps.done) h

-- A new session is added in the state `pending`.
sessions_in-append :
    (t : SessionState) (ss : List Session) (s : Session)
    → sessions_in t (ss ++ s ∷ []) ≡ sessions_in t ss + one_if (same_state s.state t)
sessions_in-append t [] s = omega arith
sessions_in-append t (x ∷ ss) s = omega (arith, sessions_in-append t ss s)

connected-append :
    (ss : List Session) (s : Session)
    → connected (ss ++ s ∷ []) ≡ connected ss + one_if s.socket_connected
connected-append [] s = omega arith
connected-append (x ∷ ss) s = omega (arith, connected-append ss s)

count_pending :
    (c : StateCounts) (t : SessionState)
    → count_of (set_count c pending (count_of c pending + 1)) t
      ≡ count_of c t + one_if (same_state pending t)
count_pending c t = ground arith

pub add_session-Balanced :
    (config : FleetConfig) (net : Net) (started_at index : ℕ) (imei : List ℕ) (f : Fleet)
    → Balanced f
    → Balanced (add_session config net started_at index imei f)
unfolding add_session new_session
add_session-Balanced config net started_at index imei f h =
    let s =
      new_session config.session_config index imei (ltb index config.moving_count)
        config.real_road in
    let c = f.farm.state_counts in
    let counted = record (f.farm) { state_counts = set_count c pending (count_of c pending + 1) } in
    let others : SessionState → ℕ = λ t. sessions_in t f.sessions in
    let at = started_at + index * 1000 / config.connection_rate_per_second in
    let after = schedule at (record { session = s; farm = counted; net = net }) in
    let (states, sockets, low, high) =
      schedule-Accounts others (connected f.sessions) at
        (record { session = s; farm = counted; net = net })
        (
          λ t. omega (arith, h.states t, count_pending c t),
          omega (arith, h.sockets),
          omega arith,
          omega arith,
        ) in
    record {
      states = λ t. omega (arith, states t, sessions_in-append t f.sessions after.session);
      sockets = omega (arith, sockets, connected-append f.sessions after.session);
      serials = All-append HasSerial f.sessions (after.session ∷ []) h.serials ((low, high), tt);
    }
