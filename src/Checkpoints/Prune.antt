-- ===== src/Checkpoints/Prune.antt =====
-- src/main/road-checkpoint-store.js: pruning keeps the file that was just written.
use mathlib.Core.Path.{subst}
use gps_device_virtual_farm.Prelude.{
  ℕ, zero, suc, ◌+◌, ◌≤◌, ◌<◌, ◌≡◌, refl, sym, Bool, false, not, ◌&&◌, some, List, [], ◌∷◌, arith,
  ltb, ◌==◌, holds_if, holds_cases, All,
}
use gps_device_virtual_farm.Prelude.Sets.{has, delete}
use gps_device_virtual_farm.Prelude.Texts.{same_text_refl}
use gps_device_virtual_farm.Checkpoints.Json.{VehicleState}
use gps_device_virtual_farm.Checkpoints.{holds, DiskFile, Library, generation_files, unlink}
use gps_device_virtual_farm.Checkpoints.Store.{
  loaded, Store, constants, snapshot_of, prune_files, payload_of, envelope_of,
}
use gps_device_virtual_farm.Checkpoints.Order.{
  Below, AtMost, AtMost-generation_files, generation_files-newer, Below-unlink, unlink-other,
}

abbrev pub NumbersAtMost : ℕ → List ℕ → Type 0
NumbersAtMost n xs = All (λ x. x ≤ n) xs

delete-AtMost : (n : ℕ) (xs : List ℕ) (x : ℕ) → NumbersAtMost n xs → NumbersAtMost n (delete xs x)
unfolding delete
delete-AtMost n [] x a = tt
delete-AtMost n (y ∷ ys) x a =
    let rest = delete-AtMost n ys x a.1 in holds_if (NumbersAtMost n) (y == x) rest (a.0, rest)

has-AtMost : (n : ℕ) (xs : List ℕ) (x : ℕ) → NumbersAtMost n xs → n < x → has xs x ≡ false
unfolding has
has-AtMost n [] x a h = refl
has-AtMost n (y ∷ ys) x a h = ground (arith, a.0, h, has-AtMost n ys x a.1 h)

-- What pruning leaves: the new file, and of the older ones some; the store but for what it knows of
-- corrupt generations.
pub record Prunes (s : Store) (f : DiskFile) (n m : ℕ) (r : Bool × (List DiskFile × Store))
    : Type 0 where
  pub rest : List DiskFile
  pub keeps : r.1.0 ≡ f ∷ rest
  pub below : Below s.run_id n rest
  pub same_run : r.1.1.run_id ≡ s.run_id
  pub same_latest : r.1.1.latest_file_generation ≡ s.latest_file_generation
  pub same_max : r.1.1.max_generations ≡ s.max_generations
  pub same_constants : constants r.1.1 ≡ constants s
  pub same_loaded : r.1.1.is_loaded ≡ s.is_loaded
  pub still_corrupt : NumbersAtMost m r.1.1.corrupt_generations

prune_files-Prunes :
    (fs : List DiskFile) (kept removals : ℕ) (f : DiskFile) (disk : List DiskFile) (s : Store)
    (n m : ℕ)
    → n < f.number
    → AtMost n fs
    → Below s.run_id n disk
    → NumbersAtMost m s.corrupt_generations
    → Prunes s f n m (prune_files fs kept removals (f ∷ disk) s)
unfolding prune_files
prune_files-Prunes [] kept removals f disk s n m h a b c = record {
  rest = disk;
  keeps = refl;
  below = b;
  same_run = refl;
  same_latest = refl;
  same_max = refl;
  same_constants = refl;
  same_loaded = refl;
  still_corrupt = c;
}
prune_files-Prunes (g ∷ gs) kept zero f disk s n m h a b c =
    holds_if (Prunes s f n m)
      (not (has s.corrupt_generations g.number) && ltb kept s.max_generations)
      (prune_files-Prunes gs (kept + 1) zero f disk s n m h a.1 b c)
      (record {
        rest = disk;
        keeps = refl;
        below = b;
        same_run = refl;
        same_latest = refl;
        same_max = refl;
        same_constants = refl;
        same_loaded = refl;
        still_corrupt = c;
      })
prune_files-Prunes (g ∷ gs) kept (suc left) f disk s n m h a b c =
    let next = record s { corrupt_generations = delete s.corrupt_generations g.number } in
    let other = unlink-other s.run_id g.number f disk (λ e. absurd (omega (arith, e, h, a.0))) in
    let deeper =
      prune_files-Prunes gs kept left f (unlink s.run_id g.number disk) next n m h a.1
        (Below-unlink s.run_id n g.number disk b)
        (delete-AtMost m s.corrupt_generations g.number c) in
    let pruned =
      subst (λ d. Prunes next f n m (prune_files gs kept left d next)) (sym other) deeper in
    holds_if (Prunes s f n m)
      (not (has s.corrupt_generations g.number) && ltb kept s.max_generations)
      (prune_files-Prunes gs (kept + 1) (suc left) f disk s n m h a.1 b c)
      (record {
        rest = pruned.rest;
        keeps = pruned.keeps;
        below = pruned.below;
        same_run = pruned.same_run;
        same_latest = pruned.same_latest;
        same_max = pruned.same_max;
        same_constants = pruned.same_constants;
        same_loaded = pruned.same_loaded;
        still_corrupt = pruned.still_corrupt;
      })

-- The file of a new generation.
abbrev pub file_of : Library → Store → ℕ → List VehicleState → DiskFile
file_of lib s now states = record {
  run = s.run_id;
  number = s.latest_file_generation + 1;
  content = holds (envelope_of lib (payload_of s (s.latest_file_generation + 1) now states));
}

abbrev pub next_of : Store → ℕ → List VehicleState → Store
next_of s now states = record s {
  generation = s.latest_file_generation + 1;
  latest_file_generation = s.latest_file_generation + 1;
  load_result = some (
      loaded (
        snapshot_of (payload_of s (s.latest_file_generation + 1) now states)
          (s.latest_file_generation + 1) false));
}

pub after_write-Prunes :
    (lib : Library) (now removals : ℕ) (states : List VehicleState) (disk : List DiskFile)
    (s : Store)
    → 1 ≤ s.max_generations
    → Below s.run_id s.latest_file_generation disk
    → NumbersAtMost s.latest_file_generation s.corrupt_generations
    → Prunes
        (next_of s now states)
        (file_of lib s now states)
        s.latest_file_generation
        s.latest_file_generation
        (prune_files
          (generation_files s.run_id (file_of lib s now states ∷ disk))
          0
          removals
          (file_of lib s now states ∷ disk)
          (next_of s now states))
unfolding prune_files
after_write-Prunes lib now removals states disk s m b c =
    let n = s.latest_file_generation in
    let f = file_of lib s now states in
    let next = next_of s now states in
    let listed =
      generation_files-newer s.run_id f disk n (same_text_refl s.run_id) b (omega arith) in
    let known = has-AtMost n s.corrupt_generations (n + 1) c (omega arith) in
    subst (λ fs. Prunes next f n n (prune_files fs 0 removals (f ∷ disk) next)) (sym listed)
      (holds_cases (Prunes next f n n)
        (not (has s.corrupt_generations (n + 1)) && ltb 0 s.max_generations)
        (λ _.
          prune_files-Prunes (generation_files s.run_id disk) 1 removals f disk next n n
            (omega arith) (AtMost-generation_files s.run_id n disk b) b c)
        (λ removed. absurd (ground (arith, removed, known, m))))
