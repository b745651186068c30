-- ===== src/Checkpoints/Tracks.antt =====
-- src/main/road-checkpoint-store.js: what a store knows of its directory.
use mathlib.Core.Path.{subst}
use gps_device_virtual_farm.Prelude.{
  ℕ, ◌+◌, ◌≤◌, ◌≡◌, ◌⊎◌, refl, sym, inl, inr, Bool, true, false, not, Option, none, some, List, [],
  ◌∷◌, ◌++◌, arith, ◌==◌, holds_if, holds_else,
}
use gps_device_virtual_farm.Prelude.Sets.{has, insert}
use gps_device_virtual_farm.Prelude.Texts.{same_text}
use gps_device_virtual_farm.Checkpoints.{Payload, DiskFile, Library, generation_files}
use gps_device_virtual_farm.Checkpoints.Store.{
  LoadResult, closed_store, Store, constants, Reading, intact, corrupt, unreadable, read_file,
  accept_payload, after_reading, load_with, load_files, load_run, load,
}
use gps_device_virtual_farm.Checkpoints.Order.{
  Below, AtMost, Below-le, newest, Below-newest, AtMost-newest,
}
use gps_device_virtual_farm.Checkpoints.Prune.{NumbersAtMost}

-- The store knows of no file that is newer than those of the directory, and of the directory's files
-- one at most is newer than the latest that it knows: one that was written and not acknowledged.
pub record Tracks (s : Store) (disk : List DiskFile) : Type 0 where
  pub keeps_some : 1 ≤ s.max_generations
  pub corrupt_known : NumbersAtMost s.latest_file_generation s.corrupt_generations
  pub not_ahead :
      s.load_result ≡ none → s.latest_file_generation ≤ newest (generation_files s.run_id disk)
  pub bounded :
      Below s.run_id (s.latest_file_generation + 1) disk
      ⊎ ((s.is_loaded ≡ false) × (s.load_result ≡ none))

pub NumbersAtMost-le : (n k : ℕ) (xs : List ℕ) → n ≤ k → NumbersAtMost n xs → NumbersAtMost k xs
NumbersAtMost-le n k [] h a = tt
NumbersAtMost-le n k (x ∷ xs) h a = (omega (arith, a.0), NumbersAtMost-le n k xs h a.1)

NumbersAtMost-insert :
    (n : ℕ) (xs : List ℕ) (x : ℕ) → x ≤ n → NumbersAtMost n xs → NumbersAtMost n (insert xs x)
unfolding insert
NumbersAtMost-insert n xs x h a = holds_if (NumbersAtMost n) (has xs x) a (at_end xs h a)
  where
    at_end : (xs : List ℕ) → x ≤ n → NumbersAtMost n xs → NumbersAtMost n (xs ++ x ∷ [])
    at_end [] h a = (h, tt)
    at_end (y ∷ ys) h a = (a.0, at_end ys h a.1)

-- What loading changes of a store.
record Loads (n : ℕ) (s after : Store) : Type 0 where
  same_run : after.run_id ≡ s.run_id
  same_latest : after.latest_file_generation ≡ s.latest_file_generation
  same_constants : constants after ≡ constants s
  same_max : after.max_generations ≡ s.max_generations
  still_corrupt : NumbersAtMost n after.corrupt_generations

accept_payload-Loads :
    (p : Payload) (number : ℕ) (recovered : Bool) (n : ℕ) (s : Store)
    → NumbersAtMost n s.corrupt_generations
    → Loads n s (accept_payload p number recovered s).1
unfolding accept_payload
accept_payload-Loads p number recovered n s c =
    let same : Loads n s s = record {
      same_run = refl;
      same_latest = refl;
      same_max = refl;
      same_constants = refl;
      still_corrupt = c;
    } in
    holds_if {A = LoadResult × Store} (λ r. Loads n s r.1) (not (p.schema_version == 1)) same
      (holds_if {A = LoadResult × Store} (λ r. Loads n s r.1)
        (not (same_text p.route_pack_digest s.route_pack_digest)) same
        (record {
          same_run = refl;
          same_latest = refl;
          same_max = refl;
          same_constants = refl;
          still_corrupt = c;
        }))

load_files-Loads :
    (lib : Library) (fs : List DiskFile) (recovered : Bool) (n : ℕ) (s : Store)
    → AtMost n fs
    → NumbersAtMost n s.corrupt_generations
    → Loads n s (load_files lib fs recovered s).1
unfolding load_files after_reading
load_files-Loads lib [] recovered n s a c = record {
  same_run = refl;
  same_latest = refl;
  same_max = refl;
  same_constants = refl;
  still_corrupt = c;
}
load_files-Loads lib (f ∷ fs) recovered n s a c =
    let deeper =
      load_files-Loads lib fs true n
        (record s { corrupt_generations = insert s.corrupt_generations f.number }) a.1
        (NumbersAtMost-insert n s.corrupt_generations f.number a.0 c) in
    after_reading-Loads f.number recovered n s _ (read_file lib s f) c (record {
      same_run = deeper.same_run;
      same_latest = deeper.same_latest;
      same_max = deeper.same_max;
      same_constants = deeper.same_constants;
      still_corrupt = deeper.still_corrupt;
    })
  where
    after_reading-Loads :
        (number : ℕ) (recovered : Bool) (n : ℕ) (s : Store) (rest : LoadResult × Store)
        (r : Reading)
        → NumbersAtMost n s.corrupt_generations
        → Loads n s rest.1
        → Loads n s (after_reading number recovered s rest r).1
    after_reading-Loads number recovered n s rest unreadable c h = record {
      same_run = refl;
      same_latest = refl;
      same_max = refl;
      same_constants = refl;
      still_corrupt = c;
    }
    after_reading-Loads number recovered n s rest corrupt c h = h
    after_reading-Loads number recovered n s rest (intact p) c h =
        accept_payload-Loads p number recovered n s c

-- After loading, the latest generation that the store knows is that of the newest file.
record Reads (run : List ℕ) (max n : ℕ) (after : Store) : Type 0 where
  of_run : after.run_id ≡ run
  of_newest : after.latest_file_generation ≡ n
  of_max : after.max_generations ≡ max
  of_corrupt : NumbersAtMost n after.corrupt_generations

load_run-Reads :
    (lib : Library) (fs : List DiskFile) (s : Store)
    → AtMost (newest fs) fs
    → NumbersAtMost (newest fs) s.corrupt_generations
    → Reads s.run_id s.max_generations (newest fs) (load_run lib fs s).1
unfolding load_run newest
load_run-Reads lib [] s a c = record {
  of_run = refl;
  of_newest = refl;
  of_max = refl;
  of_corrupt = c;
}
load_run-Reads lib (f ∷ fs) s a c =
    let h =
      load_files-Loads lib (f ∷ fs) false f.number (record s { latest_file_generation = f.number })
        a c in
    record {
      of_run = h.same_run;
      of_newest = h.same_latest;
      of_max = h.same_max;
      of_corrupt = h.still_corrupt;
    }

-- Once the store has looked at the directory, the first half of `bounded` holds.
pub record Knows (s : Store) (disk : List DiskFile) : Type 0 where
  pub tracks : Tracks s disk
  pub bound : Below s.run_id (s.latest_file_generation + 1) disk

Reads-Knows :
    (run : List ℕ) (max : ℕ) (disk : List DiskFile) (after : Store) (kept : Option LoadResult)
    → 1 ≤ max
    → Reads run max (newest (generation_files run disk)) after
    → Knows (record after { load_result = kept }) disk
Reads-Knows run max disk after kept m h =
    let n = newest (generation_files run disk) in
    let below : Below after.run_id after.latest_file_generation disk =
      subst (λ r. Below r after.latest_file_generation disk) (sym h.of_run)
        (subst (λ k. Below run k disk) (sym h.of_newest) (Below-newest run disk)) in
    let wide =
      Below-le after.run_id _ (after.latest_file_generation + 1) disk (omega arith) below in
    record {
      tracks = record {
        keeps_some = omega (arith, h.of_max, m);
        corrupt_known =
            subst (λ k. NumbersAtMost k after.corrupt_generations) (sym h.of_newest) h.of_corrupt;
        not_ahead = λ _.
            subst (λ r. after.latest_file_generation ≤ newest (generation_files r disk))
              (sym h.of_run) (omega (arith, h.of_newest));
        bounded = inl wide;
      };
      bound = wide;
    }

load_with-Knows :
    (lib : Library) (disk : List DiskFile) (s : Store) (result : Option LoadResult)
    → s.load_result ≡ result
    → Tracks s disk
    → Knows (load_with lib disk s result).1 disk
unfolding load_with
load_with-Knows lib disk s (some result) e h = elim h.bounded [
  | inl b ↦ record { tracks = h; bound = b }
  | inr (_, absent) ↦ absurd (ground (arith, e, absent))
]
load_with-Knows lib disk s none e h =
    let fs = generation_files s.run_id disk in
    Reads-Knows s.run_id s.max_generations disk (load_run lib fs s).1 _ h.keeps_some (
      load_run-Reads lib fs s (AtMost-newest s.run_id disk) (
        NumbersAtMost-le s.latest_file_generation (newest fs) s.corrupt_generations (h.not_ahead e)
          h.corrupt_known))

pub load-Knows :
    (lib : Library) (disk : List DiskFile) (s : Store)
    → s.closed ≡ false
    → Tracks s disk
    → Knows (load lib disk s).1 disk
unfolding load
load-Knows lib disk s o h =
    holds_else {A = LoadResult × Store} (λ r. Knows r.1 disk) s.closed (closed_store, s) o
      (load_with-Knows lib disk s s.load_result refl h)

pub load-Tracks :
    (lib : Library) (disk : List DiskFile) (s : Store)
    → Tracks s disk
    → Tracks (load lib disk s).1 disk
unfolding load
load-Tracks lib disk s h =
    holds_if {A = LoadResult × Store} (λ r. Tracks r.1 disk) s.closed h
      (load_with-Knows lib disk s s.load_result refl h).tracks

load_run-constants :
    (lib : Library) (fs : List DiskFile) (s : Store)
    → AtMost (newest fs) fs
    → NumbersAtMost (newest fs) s.corrupt_generations
    → constants (load_run lib fs s).1 ≡ constants s
unfolding load_run newest
load_run-constants lib [] s a c = refl
load_run-constants lib (f ∷ fs) s a c =
    (load_files-Loads lib (f ∷ fs) false f.number (record s { latest_file_generation = f.number }) a
      c).same_constants

load_with-constants :
    (lib : Library) (disk : List DiskFile) (s : Store) (result : Option LoadResult)
    → s.load_result ≡ result
    → Tracks s disk
    → constants (load_with lib disk s result).1 ≡ constants s
unfolding load_with
load_with-constants lib disk s (some result) e h = refl
load_with-constants lib disk s none e h =
    let fs = generation_files s.run_id disk in
    load_run-constants lib fs s (AtMost-newest s.run_id disk) (
      NumbersAtMost-le s.latest_file_generation (newest fs) s.corrupt_generations (h.not_ahead e)
        h.corrupt_known)

-- Loading changes none of the constructor's fields.
pub load-constants :
    (lib : Library) (disk : List DiskFile) (s : Store)
    → Tracks s disk
    → constants (load lib disk s).1 ≡ constants s
unfolding load
load-constants lib disk s h =
    holds_if {A = LoadResult × Store} (λ r. constants r.1 ≡ constants s) s.closed refl
      (load_with-constants lib disk s s.load_result refl h)
