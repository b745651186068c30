-- ===== src/Status/Normal.antt =====
-- src/main/road-preparation-status-store.js: what is written is read back.
use mathlib.Core.Path.{subst}
use gps_device_virtual_farm.Prelude.{
  ℕ, zero, suc, ◌≢◌, false, if◌then◌else◌, get_elem?, set, ◌+◌, ◌*◌, ◌/◌, ◌%◌, ◌≤◌, ◌≡◌, refl, sym,
  ap, ◌∙◌, inl, inr, true, ◌&&◌, Option, none, some, some_injective, List, [], ◌∷◌, arith, ltb,
  Option-cases, Bool-cases, holds_cases,
}
use gps_device_virtual_farm.Prelude.Texts.{same_text_refl, is_digest}
use gps_device_virtual_farm.Status.{
  RunState, running, ready, usable, incomplete, blocked, canceled, Number, finite, improper, Status,
  normal_number, normal_numbers, is_some, normalize_with, normalize_status, are_texts, is_retry_at,
  is_resume, is_composition,
}
use gps_device_virtual_farm.Status.Store.{
  StatusRecord, ReadStatus, Lengths, is_running, without_times, read_view, read, checked_length,
  record_of, then_checked, write,
}

-- A number that was rounded is not changed.
rounded_twice :
    (v : ℕ)
    → v ≤ 2592000000000
    → normal_number (finite ((v + 500) / 1000 * 1000)) ≡ some (finite ((v + 500) / 1000 * 1000))
unfolding normal_number
rounded_twice v h =
    let same : ((v + 500) / 1000 * 1000 + 500) / 1000 * 1000 ≡ (v + 500) / 1000 * 1000 =
      omega arith in
    let small : (v + 500) / 1000 * 1000 ≤ 2592000000000 = omega (arith, h) in
    holds_cases {A = Option Number} (λ r. r ≡ some (finite ((v + 500) / 1000 * 1000)))
      (ltb 2592000000000 ((v + 500) / 1000 * 1000)) (λ large. absurd (ground (arith, large, small)))
      (λ _. ap (λ n. some (finite n)) same)

normal_number_twice : (v n : Number) → normal_number v ≡ some n → normal_number n ≡ some n
normal_number_twice improper n e = absurd (unfold normal_number in ground (arith, e))
normal_number_twice (finite v) n e = elim (Bool-cases (ltb 2592000000000 v)) [
  | inl large ↦ absurd (unfold normal_number in ground (arith, e, large))
  | inr small ↦
      let is : finite ((v + 500) / 1000 * 1000) ≡ n =
        unfold normal_number in ground (arith, e, small) in
      subst (λ n. normal_number n ≡ some n) is (rounded_twice v (ground (arith, small)))
]

cons_none :
    (vs ns : List (Option Number))
    → normal_numbers vs ≡ some ns
    → normal_numbers (none ∷ vs) ≡ some (none ∷ ns)
unfolding normal_numbers
cons_none vs ns e = ground (arith, e)

cons_some :
    (v n : Number) (vs ns : List (Option Number))
    → normal_number v ≡ some n
    → normal_numbers vs ≡ some ns
    → normal_numbers (some v ∷ vs) ≡ some (some n ∷ ns)
unfolding normal_numbers
cons_some v n vs ns h e = ground (arith, h, e)

normal_nil : normal_numbers [] ≡ some []
unfolding normal_numbers
normal_nil = refl

normal_numbers_twice :
    (vs ns : List (Option Number)) → normal_numbers vs ≡ some ns → normal_numbers ns ≡ some ns
normal_numbers_twice [] ns e =
    subst (λ ns. normal_numbers ns ≡ some ns) (some_injective (sym normal_nil ∙ e)) normal_nil
normal_numbers_twice (none ∷ vs) ns e = elim (Option-cases (normal_numbers vs)) [
  | inl bad ↦ absurd (unfold normal_numbers in ground (arith, bad, e))
  | inr (ms, h) ↦
      subst (λ ns. normal_numbers ns ≡ some ns) (some_injective (sym (cons_none vs ms h) ∙ e))
        (cons_none ms ms (normal_numbers_twice vs ms h))
]
normal_numbers_twice (some v ∷ vs) ns e = elim (Option-cases (normal_number v)) [
  | inl bad ↦ absurd (unfold normal_numbers in ground (arith, bad, e))
  | inr (n, good) ↦ elim (Option-cases (normal_numbers vs)) [
    | inl bad ↦ absurd (unfold normal_numbers in ground (arith, bad, good, e))
    | inr (ms, h) ↦
        subst (λ ns. normal_numbers ns ≡ some ns)
          (some_injective (sym (cons_some v n vs ms good h) ∙ e))
          (cons_some n n ms ms (normal_number_twice v n good) (normal_numbers_twice vs ms h))
  ]
]

normalize_with_twice :
    (s n : Status) (ns : List (Option Number))
    → normal_numbers ns ≡ some ns
    → is_some s.state ≡ true
    → normalize_with s (some ns) ≡ some n
    → normalize_status n ≡ some n
unfolding normalize_with normalize_status
normalize_with_twice s n ns again known e =
    let passed =
      are_texts s.texts
      && (is_retry_at s.retry_at
          && (is_resume s.resume_available && is_composition s.composition)) in
    let ok : passed ≡ true = ground (arith, e) in
    let is : record s { numbers = ns } ≡ n = ground (arith, e) in
    subst (λ n. normalize_status n ≡ some n) is (rw (known, again) (rw ok refl))

normalize_status_twice : (s n : Status) → normalize_status s ≡ some n → normalize_status n ≡ some n
unfolding normalize_status normalize_with
normalize_status_twice s n e =
    let known : is_some s.state ≡ true = ground (arith, e) in
    let rest : normalize_with s (normal_numbers s.numbers) ≡ some n = ground (arith, e) in
    elim (Option-cases (normal_numbers s.numbers)) [
      | inl bad ↦ absurd (nothing s n (rw bad at rest))
      | inr (ns, h) ↦
          normalize_with_twice s n ns (normal_numbers_twice s.numbers ns h) known (rw h at rest)
    ]
  where
    nothing : (s n : Status) → normalize_with s none ≡ some n → ⊥
    nothing s n e = ground (arith, e)

-- What `write` gives is a record of the normalised status that is not too long.
write_lem :
    (lengths : Lengths) (scope : List ℕ) (now : ℕ) (s : Status) (r : StatusRecord)
    → write lengths scope now s ≡ some r
    → (n : Status) × (normalize_status s ≡ some n)
      × (is_digest scope ≡ true)
      × (lengths r ≤ 16384)
      × (r ≡ record {
        schema_version = 1;
        scope = scope;
        status = n;
        last_updated_at = finite (now * 1000);
      })
unfolding write record_of then_checked checked_length
write_lem lengths scope now s r e = elim (Option-cases (normalize_status s)) [
  | inl bad ↦ absurd (ground (arith, bad, e))
  | inr (n, h) ↦
      let kept : r ≡ record {
        schema_version = 1;
        scope = scope;
        status = n;
        last_updated_at = finite (now * 1000);
      } =
        ground (arith, h, e) in
      (n, h, ground (arith, e), ground (arith, h, e, kept), kept)
]

-- What is read of a status whose run was under way: it is marked as interrupted, and the time that was
-- estimated to remain, the delay to the next attempt and its time are gone. The numbers are in the order
-- of NUMBER_FIELDS.
pub record IsInterrupted (n : Status) (view : ReadStatus) : Type 0 where
  pub interrupted : view.interrupted ≡ true
  pub same_state : view.status.state ≡ n.state
  pub no_remaining : (v : Number) → get_elem? view.status.numbers 14 ≢ some (some v)
  pub no_delay : (v : Number) → get_elem? view.status.numbers 15 ≢ some (some v)
  pub no_retry : view.status.retry_at ≡ none
  pub other_numbers :
      (i : ℕ) → i ≢ 14 → i ≢ 15 → get_elem? view.status.numbers i ≡ get_elem? n.numbers i
  pub same_rest :
      (view.status.texts ≡ n.texts)
      × (view.status.resume_available ≡ n.resume_available)
      × (view.status.composition ≡ n.composition)

get_elem?-set_same :
    (xs : List (Option Number)) (i : ℕ) (v : Number) → get_elem? (set xs i none) i ≢ some (some v)
get_elem?-set_same [] i v e = absurd (ground (arith, e))
get_elem?-set_same (x ∷ xs) zero v e = absurd (ground (arith, e))
get_elem?-set_same (x ∷ xs) (suc i) v e = get_elem?-set_same xs i v e

get_elem?-set_other :
    (xs : List (Option Number)) (i j : ℕ) (y : Option Number)
    → i ≢ j
    → get_elem? (set xs i y) j ≡ get_elem? xs j
get_elem?-set_other [] i j y ne = refl
get_elem?-set_other (x ∷ xs) zero zero y ne = absurd (ne refl)
get_elem?-set_other (x ∷ xs) zero (suc j) y ne = refl
get_elem?-set_other (x ∷ xs) (suc i) zero y ne = refl
get_elem?-set_other (x ∷ xs) (suc i) (suc j) y ne =
    get_elem?-set_other xs i j y (λ e. ne (ap suc e))

-- What is read of a normalised status.
view_of :
    (at : Number) (n : Status)
    → (view : ReadStatus) × (read_view at (some n) ≡ some view)
      × (view.last_updated_at ≡ at)
      × (n.state ≡ some running → IsInterrupted n view)
      × (n.state ≢ some running → (view.interrupted ≡ false) × (view.status ≡ n))
unfolding read_view without_times
view_of at n = elim (Bool-cases (is_running n.state)) [
  | inl on ↦
      let cut = without_times n in
      let view : ReadStatus = record { interrupted = true; status = cut; last_updated_at = at } in
      (
        view,
        ap
            (λ b. some (record {
              interrupted = b;
              status = if b then without_times n else n;
              last_updated_at = at;
            }))
            on,
        refl,
        (λ _. record {
          interrupted = refl;
          same_state = refl;
          no_remaining = λ v e.
              get_elem?-set_same n.numbers 14 v
                (sym (get_elem?-set_other (set n.numbers 14 none) 15 14 none (omega arith)) ∙ e);
          no_delay = get_elem?-set_same (set n.numbers 14 none) 15;
          no_retry = refl;
          other_numbers = λ i a b.
              get_elem?-set_other (set n.numbers 14 none) 15 i none (λ e. b (sym e))
              ∙ get_elem?-set_other n.numbers 14 i none (λ e. a (sym e));
          same_rest = (refl, refl, refl);
        }),
        λ off. absurd (off (state_of n.state on)),
      )
  | inr off ↦ (
    record { interrupted = false; status = n; last_updated_at = at },
    ap
        (λ b. some (record {
          interrupted = b;
          status = if b then without_times n else n;
          last_updated_at = at;
        }))
        off,
    refl,
    (λ on. absurd (not_running n.state on off)),
    λ _. (refl, refl),
  )
]
  where
    state_of : (s : Option RunState) → is_running s ≡ true → s ≡ some running
    state_of (some running) e = refl
    state_of (some ready) e = absurd (ground (arith, e))
    state_of (some usable) e = absurd (ground (arith, e))
    state_of (some incomplete) e = absurd (ground (arith, e))
    state_of (some blocked) e = absurd (ground (arith, e))
    state_of (some canceled) e = absurd (ground (arith, e))
    state_of none e = absurd (ground (arith, e))

    not_running : (s : Option RunState) → s ≡ some running → is_running s ≡ false → ⊥
    not_running s e off = let on : is_running s ≡ true = ap is_running e in ground (arith, on, off)

-- What was written is read back: a status that `write` accepts is read under its scope as the normalised
-- status, with the time of the write. Where the run was not under way, the status is read unchanged;
-- where it was, it is marked as interrupted, has neither the remaining time nor the delay and the time of
-- the next attempt, and has all else unchanged. Nothing is rounded or refused the second time.
pub read-write :
    (lengths : Lengths) (scope : List ℕ) (now : ℕ) (s : Status) (r : StatusRecord)
    → write lengths scope now s ≡ some r
    → (n : Status) × (view : ReadStatus) × (normalize_status s ≡ some n)
      × (read lengths scope r ≡ some view)
      × (view.last_updated_at ≡ finite (now * 1000))
      × (n.state ≡ some running → IsInterrupted n view)
      × (n.state ≢ some running → (view.interrupted ≡ false) × (view.status ≡ n))
unfolding read
read-write lengths scope now s r e =
    let (n, h, digest, short, is) = write_lem lengths scope now s r e in
    let whole : StatusRecord = record {
      schema_version = 1;
      scope = scope;
      status = n;
      last_updated_at = finite (now * 1000);
    } in
    let fits : lengths whole ≤ 16384 = subst (λ r. lengths r ≤ 16384) is short in
    let multiple : now * 1000 % 1000 ≡ 0 = omega arith in
    let (view, seen, at, on, off) = view_of (finite (now * 1000)) n in
    let read_back : read lengths scope whole ≡ read_view (finite (now * 1000)) (some n) =
      ground (arith, digest, fits, same_text_refl scope, multiple, normalize_status_twice s n h) in
    (n, view, h, ap (read lengths scope) is ∙ read_back ∙ seen, at, on, off)
