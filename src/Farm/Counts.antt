-- ===== src/Farm/Counts.antt =====
-- How a change of state moves the counts.
use gps_device_virtual_farm.Prelude.{ℕ, ◌+◌, ◌-◌, ◌≡◌, refl, true, false, arith, if◌then◌else◌}
use gps_device_virtual_farm.Farm.{
  SessionState, pending, connecting, login_sent, online, backoff, stopped, StateCounts, Farm,
  count_of, set_count, same_state, set_session_state,
}

count_of-set_count :
    (c : StateCounts) (n : ℕ) (s t : SessionState)
    → count_of (set_count c s n) t ≡ (if same_state s t then n else count_of c t)
count_of-set_count c n pending pending = refl
count_of-set_count c n connecting connecting = refl
count_of-set_count c n login_sent login_sent = refl
count_of-set_count c n online online = refl
count_of-set_count c n backoff backoff = refl
count_of-set_count c n stopped stopped = refl
count_of-set_count c n _ _ = refl

pub same_state-eq : (s t : SessionState) → same_state s t ≡ true → s ≡ t
same_state-eq s t h = ground arith

pub same_state_refl : (s : SessionState) → same_state s s ≡ true
same_state_refl s = ground arith

-- The state that is left loses one, if it has one, and the state that is entered gains one.
pub count_of-set_session_state :
    (p n : SessionState) (f : Farm) (t : SessionState)
    → same_state p n ≡ false
    → count_of (set_session_state p n f).state_counts t ≡ (
        if same_state p t
        then count_of f.state_counts t - 1
        else if same_state n t
        then count_of f.state_counts t + 1
        else count_of f.state_counts t)
unfolding set_session_state
count_of-set_session_state p n f t h =
    let c = f.state_counts in
    let left = set_count c p (count_of c p - 1) in
    ground (
      arith,
      h,
      count_of-set_count c (count_of c p - 1) p t,
      count_of-set_count c (count_of c p - 1) p n,
      count_of-set_count left (count_of left n + 1) n t,
      count_of-set_count c (count_of c n + 1) n t,
      same_state-eq p t,
      same_state-eq n t,
      same_state-eq p n,
    )
