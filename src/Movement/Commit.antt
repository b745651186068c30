-- ===== src/Movement/Commit.antt =====
-- src/simulator/road-movement.js: a proposal and its commit.
use mathlib.Core.Path.{subst}
use gps_device_virtual_farm.Prelude.{
  ℕ, zero, suc, ◌+◌, ◌≤◌, ◌<◌, max, ◌≡◌, ◌≢◌, ◌⊎◌, refl, sym, ap, ◌∙◌, inl, inr, Option, none, some,
  arith, ◌==◌, if◌then◌else◌, some_injective,
}
use gps_device_virtual_farm.Movement.{Geometry, MoveState}
use gps_device_virtual_farm.Movement.Model.{
  Proposal, Pending, Model, safe_wall, elapsed_ms, advanced, remember, point_to_send, propose_next,
  propose_moved, propose_with, propose_point, on_transport_available, on_transport_unavailable,
  commit_with, commit_queued_point,
}

-- What a new proposal is to be.
pub record IsProposed (g : Geometry) (now : ℕ) (m : Model) (p : Proposal) (after : Model)
    : Type 0 where
  pub unmoved : after.state ≡ m.state
  pub new_token : p.token ≡ m.token_sequence + 1
  pub not_before_now : now ≤ p.gps_point.device_time
  pub later :
      m.state.last_queued_wall_utc_ms ≡ 0
      ⊎ m.state.last_queued_wall_utc_ms < p.gps_point.device_time
  pub again : (wall monotonic : ℕ) → propose_point g wall monotonic after ≡ some (p, after)
  pub stale : (token : ℕ) → token ≢ p.token → commit_queued_point token after ≡ none
  pub dropped :
      (monotonic : ℕ)
      → (commit_queued_point p.token (on_transport_available monotonic after) ≡ none)
        × (commit_queued_point p.token (on_transport_unavailable after) ≡ none)
  pub committed :
      (final : Model) × (commit_queued_point p.token after ≡ some final)
      × (final.state.last_queued_wall_utc_ms ≡ p.gps_point.device_time)
      × (final.state.last_queued_latitude ≡ p.gps_point.latitude)
      × (final.state.last_queued_longitude ≡ p.gps_point.longitude)
      × (final.pending ≡ none)

time_passes : (last now : ℕ) → last ≡ 0 ⊎ last < max now (last + (if last == 0 then 0 else 1))
time_passes zero now = inl refl
time_passes (suc last) now = inr (grind arith)

-- The token of the pending proposal is accepted.
commit_own :
    (m : Model) (p : Pending)
    → m.pending ≡ some p
    → (final : Model) × (commit_queued_point p.proposal.token m ≡ some final)
      × (final.state ≡ p.next)
      × (final.pending ≡ none)
unfolding commit_queued_point commit_with
commit_own m p e = (
  record m { state = p.next; last_motion_ms = some p.now_monotonic_ms; pending = none },
  ap (commit_with p.proposal.token m) e ∙ commit_with_own p.proposal.token m p refl,
  refl,
  refl,
)
  where
    commit_with_own :
        (token : ℕ) (m : Model) (p : Pending)
        → p.proposal.token ≡ token
        → commit_with token m (some p)
          ≡ some (record m {
            state = p.next;
            last_motion_ms = some p.now_monotonic_ms;
            pending = none;
          })
    commit_with_own token m p e = ground (arith, e)

IsProposed-propose_next :
    (g : Geometry) (m : Model) (now monotonic : ℕ) (moved : MoveState)
    → let result =
        propose_next g m (safe_wall now m.state.last_queued_wall_utc_ms) monotonic moved in
      IsProposed g now m result.0 result.1
unfolding propose_next propose_point propose_with commit_queued_point commit_with point_to_send
    remember safe_wall on_transport_available on_transport_unavailable
IsProposed-propose_next g m now monotonic moved =
    let after =
      (propose_next g m (safe_wall now m.state.last_queued_wall_utc_ms) monotonic moved).1 in
    let (final, e, same, none_pending) = commit_own after _ refl in
    record {
      unmoved = refl;
      new_token = omega arith;
      not_before_now = omega arith;
      later = time_passes m.state.last_queued_wall_utc_ms now;
      again = λ w t. refl;
      stale = λ token ne. ground (arith, ne);
      dropped = λ t. (refl, refl);
      committed = (
        final,
        e,
        ap (λ s. s.last_queued_wall_utc_ms) same,
        ap (λ s. s.last_queued_latitude) same,
        ap (λ s. s.last_queued_longitude) same,
        none_pending,
      );
    }

IsProposed-propose_moved :
    (g : Geometry) (now monotonic : ℕ) (m : Model) (p : Proposal) (after : Model)
    (moved : Option MoveState)
    → propose_moved g m (safe_wall now m.state.last_queued_wall_utc_ms) monotonic moved
      ≡ some (p, after)
    → IsProposed g now m p after
unfolding propose_moved
IsProposed-propose_moved g now monotonic m p after none e = absurd (ground (arith, e))
IsProposed-propose_moved g now monotonic m p after (some moved) e =
    subst (λ r. IsProposed g now m r.0 r.1) (some_injective e)
      (IsProposed-propose_next g m now monotonic moved)

IsProposed-propose_with :
    (g : Geometry) (now monotonic : ℕ) (m : Model) (p : Proposal) (after : Model)
    → propose_with g now monotonic m none ≡ some (p, after)
    → IsProposed g now m p after
unfolding propose_with
IsProposed-propose_with g now monotonic m p after e =
    IsProposed-propose_moved g now monotonic m p after (advanced g m (elapsed_ms m monotonic))
      (ground (arith, e))

-- A proposal is new only when there is none: `proposePoint` moves nothing and gives a token that was not
-- used, a time that is not before the clock's and is after that of the point sent last. A second call
-- right after gives the same proposal, whatever the clock says; another token is refused; its own token
-- makes the point the one sent last and leaves no proposal; and once the transport is reported available
-- or unavailable, its token is refused too.
pub propose_point-commit :
    (g : Geometry) (now monotonic : ℕ) (m : Model) (p : Proposal) (after : Model)
    → m.pending ≡ none
    → propose_point g now monotonic m ≡ some (p, after)
    → IsProposed g now m p after
unfolding propose_point
propose_point-commit g now monotonic m p after none_pending e =
    IsProposed-propose_with g now monotonic m p after
      (ap (propose_with g now monotonic m) (sym none_pending) ∙ e)
