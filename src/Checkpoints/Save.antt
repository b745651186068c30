-- ===== src/Checkpoints/Save.antt =====
-- src/main/road-checkpoint-store.js: what was saved is what a new store loads.
use mathlib.Core.Path.{subst}
use gps_device_virtual_farm.Prelude.{
  ℕ, ◌+◌, ◌≤◌, ◌<◌, ◌≡◌, refl, sym, ap, ◌∙◌, inl, inr, Bool, true, not, ◌||◌, List, ◌∷◌, arith, ltb,
  if◌then◌else◌, holds_if, holds_cases,
}
use gps_device_virtual_farm.Prelude.Texts.{same_text, same_text_refl}
use gps_device_virtual_farm.Checkpoints.Json.{VehicleState}
use gps_device_virtual_farm.Checkpoints.{
  DiskFile, Library, validate_states, generation_files, unlink,
}
use gps_device_virtual_farm.Checkpoints.Store.{
  Store, constants, load, WriteOutcome, not_written, not_synced, written, SaveResult, saved,
  write_error, prune_error, is_closed, invalid_states, not_loaded, generation_limit, too_large,
  payload_of, envelope_of, put_file, after_write, write_file, save_run, is_error, save,
}
use gps_device_virtual_farm.Checkpoints.Order.{
  Below, Below-le, newest, generation_files-newer, Below-unlink_top,
}
use gps_device_virtual_farm.Checkpoints.Prune.{Prunes, file_of, next_of, after_write-Prunes}
use gps_device_virtual_farm.Checkpoints.Tracks.{
  Tracks, Knows, load-Knows, load-Tracks, load-constants, NumbersAtMost-le,
}

-- What comes of a call of `#save`: the store still tracks the directory, and if the call succeeds the new
-- file is there and is the newest.
record Saves (lib : Library) (s : Store) (now : ℕ) (states : List VehicleState)
    (r : SaveResult × (List DiskFile × Store)) : Type 0 where
  tracks : Tracks r.1.1 r.1.0
  same_constants : constants r.1.1 ≡ constants s
  written_file :
      (g t k : ℕ)
      → r.0 ≡ saved g t k
      → (rest : List DiskFile) × (r.1.0 ≡ file_of lib s now states ∷ rest)
        × Below s.run_id s.latest_file_generation rest
        × (g ≡ s.latest_file_generation + 1)
        × (t ≡ now)

-- A call that fails and leaves all as it was.
Saves-unchanged :
    (lib : Library) (s : Store) (now : ℕ) (states : List VehicleState) (disk : List DiskFile)
    (e : SaveResult)
    → Tracks s disk
    → ((g t k : ℕ) → e ≡ saved g t k → ⊥)
    → Saves lib s now states (e, (disk, s))
Saves-unchanged lib s now states disk e h fails = record {
  tracks = h;
  same_constants = refl;
  written_file = λ g t k same. absurd (fails g t k same);
}

newest-newer :
    (run : List ℕ) (f : DiskFile) (disk : List DiskFile) (n : ℕ)
    → same_text f.run run ≡ true
    → Below run n disk
    → n < f.number
    → newest (generation_files run (f ∷ disk)) ≡ f.number
unfolding newest
newest-newer run f disk n own b h = ap newest (generation_files-newer run f disk n own b h)

Prunes-Tracks :
    (s : Store) (f : DiskFile) (n : ℕ) (r : Bool × (List DiskFile × Store))
    → 1 ≤ s.max_generations
    → s.latest_file_generation ≡ n + 1
    → f.number ≡ n + 1
    → same_text f.run s.run_id ≡ true
    → Prunes s f n n r
    → Tracks r.1.1 r.1.0
Prunes-Tracks s f n r m latest number own p =
    let after = r.1.1 in
    let top = newest-newer s.run_id f p.rest n own p.below (omega (arith, number)) in
    record {
      keeps_some = omega (arith, p.same_max, m);
      corrupt_known =
          NumbersAtMost-le n after.latest_file_generation after.corrupt_generations
            (omega (arith, p.same_latest, latest)) p.still_corrupt;
      not_ahead = λ _.
          subst (λ d. after.latest_file_generation ≤ newest (generation_files after.run_id d))
            (sym p.keeps)
            (subst
              (λ run. after.latest_file_generation ≤ newest (generation_files run (f ∷ p.rest)))
              (sym p.same_run) (omega (arith, top, number, p.same_latest, latest)));
      bounded = inl (
          subst (λ d. Below after.run_id (after.latest_file_generation + 1) d) (sym p.keeps)
            (subst (λ run. Below run (after.latest_file_generation + 1) (f ∷ p.rest))
              (sym p.same_run)
              (
                λ _. omega (arith, number, p.same_latest, latest),
                Below-le s.run_id n (after.latest_file_generation + 1) p.rest
                    (omega (arith, p.same_latest, latest)) p.below,
              )));
    }

-- A save that is reported names its generation and its time.
saved_parts :
    (b : Bool) (g t k g' t' k' : ℕ)
    → (if b then saved g t k else prune_error) ≡ saved g' t' k'
    → (g' ≡ g) × (t' ≡ t)
saved_parts b g t k g' t' k' e = ground (arith, e)

after_write-Saves :
    (lib : Library) (now removals : ℕ) (states : List VehicleState) (disk disk' : List DiskFile)
    (s : Store)
    → Tracks s disk
    → Below s.run_id s.latest_file_generation disk'
    → Saves lib s now states (after_write now removals states (file_of lib s now states ∷ disk') s)
unfolding after_write
after_write-Saves lib now removals states disk disk' s h b =
    let n = s.latest_file_generation in
    let f = file_of lib s now states in
    let p = after_write-Prunes lib now removals states disk' s h.keeps_some b h.corrupt_known in
    record {
      tracks =
          Prunes-Tracks (next_of s now states) f n _ h.keeps_some refl refl
            (same_text_refl s.run_id) p;
      same_constants = p.same_constants;
      written_file = λ g t k e. (
        p.rest,
        p.keeps,
        p.below,
        (saved_parts _ _ _ _ g t k e).0,
        (saved_parts _ _ _ _ g t k e).1,
      );
    }

write_file-Saves :
    (lib : Library) (now : ℕ) (outcome : WriteOutcome) (states : List VehicleState)
    (disk : List DiskFile) (s : Store)
    → Knows s disk
    → Saves lib s now states (
        write_file now states
          (envelope_of lib (payload_of s (s.latest_file_generation + 1) now states))
          disk
          s
          outcome)
unfolding write_file put_file
write_file-Saves lib now not_written states disk s h =
    Saves-unchanged lib s now states disk write_error h.tracks (λ g t k e. ground (arith, e))
write_file-Saves lib now not_synced states disk s h =
    let n = s.latest_file_generation in
    let f = file_of lib s now states in
    let b = Below-unlink_top s.run_id n disk h.bound in
    let top =
      newest-newer s.run_id f (unlink s.run_id (n + 1) disk) n (same_text_refl s.run_id) b
        (omega arith) in
    Saves-unchanged lib s now states (f ∷ unlink s.run_id (n + 1) disk) write_error
      (record {
        keeps_some = h.tracks.keeps_some;
        corrupt_known = h.tracks.corrupt_known;
        not_ahead = λ _. omega (arith, top);
        bounded = inl (λ _. omega arith, Below-le s.run_id n (n + 1) _ (omega arith) b);
      })
      (λ g t k e. ground (arith, e))
write_file-Saves lib now (written removals) states disk s h =
    after_write-Saves lib now removals states disk
      (unlink s.run_id (s.latest_file_generation + 1) disk) s h.tracks
      (Below-unlink_top s.run_id s.latest_file_generation disk h.bound)

-- A save within the limits: the file fits.
pub record Reported (lib : Library) (s : Store) (now : ℕ) (states : List VehicleState) (g t : ℕ)
    (disk : List DiskFile) : Type 0 where
  pub before : Store
  pub rest : List DiskFile
  pub same_constants : constants before ≡ constants s
  pub file_first : disk ≡ file_of lib before now states ∷ rest
  pub others_older : Below before.run_id before.latest_file_generation rest
  pub of_generation : g ≡ before.latest_file_generation + 1
  pub of_time : t ≡ now
  pub fits :
      lib.byte_length
        (envelope_of lib (payload_of before (before.latest_file_generation + 1) now states))
      ≤ before.max_bytes
  pub valid : validate_states states ≡ true

-- What comes of a call of `save`.
pub record Result (lib : Library) (s : Store) (now : ℕ) (states : List VehicleState)
    (r : SaveResult × (List DiskFile × Store)) : Type 0 where
  pub tracks : Tracks r.1.1 r.1.0
  pub same_constants : constants r.1.1 ≡ constants s
  pub reported : (g t k : ℕ) → r.0 ≡ saved g t k → Reported lib s now states g t r.1.0

Result-unchanged :
    (lib : Library) (s : Store) (now : ℕ) (states : List VehicleState) (disk : List DiskFile)
    (after : Store) (e : SaveResult)
    → Tracks after disk
    → constants after ≡ constants s
    → ((g t k : ℕ) → e ≡ saved g t k → ⊥)
    → Result lib s now states (e, (disk, after))
Result-unchanged lib s now states disk after e h same fails = record {
  tracks = h;
  same_constants = same;
  reported = λ g t k r. absurd (fails g t k r);
}

save_run-Result :
    (lib : Library) (now : ℕ) (outcome : WriteOutcome) (states : List VehicleState)
    (disk : List DiskFile) (s before : Store)
    → validate_states states ≡ true
    → constants before ≡ constants s
    → Knows before disk
    → Result lib s now states (save_run lib now outcome states disk before)
unfolding save_run
save_run-Result lib now outcome states disk s before valid same h =
    let e = envelope_of lib (payload_of before (before.latest_file_generation + 1) now states) in
    holds_if {A = SaveResult × (List DiskFile × Store)} (Result lib s now states)
      (ltb 999999999999 (before.latest_file_generation + 1))
      (Result-unchanged lib s now states disk before generation_limit h.tracks same
        (λ g t k e. ground (arith, e)))
      (holds_cases {A = SaveResult × (List DiskFile × Store)} (Result lib s now states)
        (ltb before.max_bytes (lib.byte_length e))
        (λ _.
          Result-unchanged lib s now states disk before too_large h.tracks same
            (λ g t k e. ground (arith, e)))
        (λ small.
          let done = write_file-Saves lib now outcome states disk before h in
          record {
            tracks = done.tracks;
            same_constants = done.same_constants ∙ same;
            reported = λ g t k r.
                let (rest, first, older, of_g, of_t) = done.written_file g t k r in
                record {
                  before = before;
                  rest = rest;
                  same_constants = same;
                  file_first = first;
                  others_older = older;
                  of_generation = of_g;
                  of_time = of_t;
                  fits = ground (arith, small);
                  valid = valid;
                };
          }))

pub save-Result :
    (lib : Library) (now : ℕ) (outcome : WriteOutcome) (states : List VehicleState)
    (disk : List DiskFile) (s : Store)
    → Tracks s disk
    → Result lib s now states (save lib now outcome states disk s)
unfolding save
save-Result lib now outcome states disk s h =
    let after = (load lib disk s).1 in
    let P : SaveResult × (List DiskFile × Store) → Type 0 = Result lib s now states in
    holds_cases {A = SaveResult × (List DiskFile × Store)} P (s.closed || s.closing)
      (λ _.
        Result-unchanged lib s now states disk s is_closed h refl (λ g t k e. ground (arith, e)))
      (λ opened.
        holds_cases {A = SaveResult × (List DiskFile × Store)} P (not (validate_states states))
          (λ _.
            Result-unchanged lib s now states disk s invalid_states h refl
              (λ g t k e. ground (arith, e)))
          (λ ok.
            let valid : validate_states states ≡ true = ground (arith, ok) in
            holds_cases {A = SaveResult × (List DiskFile × Store)} P s.is_loaded
              (λ read.
                save_run-Result lib now outcome states disk s s valid refl
                  (loaded-Knows s disk read h))
              (λ _.
                holds_if {A = SaveResult × (List DiskFile × Store)} P (is_error (load lib disk s).0)
                  (Result-unchanged lib s now states disk after not_loaded
                    (load-Tracks lib disk s h) (load-constants lib disk s h)
                    (λ g t k e. ground (arith, e)))
                  (save_run-Result lib now outcome states disk s after valid
                    (load-constants lib disk s h)
                    (load-Knows lib disk s (ground (arith, opened)) h)))))
  where
    loaded-Knows :
        (s : Store) (disk : List DiskFile) → s.is_loaded ≡ true → Tracks s disk → Knows s disk
    loaded-Knows s disk read h = elim h.bounded [
      | inl b ↦ record { tracks = h; bound = b }
      | inr (un, _) ↦ absurd (ground (arith, un, read))
    ]
