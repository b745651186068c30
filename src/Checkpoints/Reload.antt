-- ===== src/Checkpoints/Reload.antt =====
-- src/main/road-checkpoint-store.js: what was saved is what a new store loads.
use mathlib.Core.Path.{subst}
use gps_device_virtual_farm.Prelude.{
  ℕ, ◌+◌, ◌≤◌, ◌≡◌, refl, sym, ap, ◌∙◌, inr, Bool, true, false, List, [], ◌∷◌, arith, holds_if,
}
use gps_device_virtual_farm.Prelude.Texts.{same_text, same_text_refl, is_digest}
use gps_device_virtual_farm.Checkpoints.Json.{VehicleState}
use gps_device_virtual_farm.Checkpoints.{
  Payload, DiskFile, Library, validate_states, validate_envelope, generation_files,
}
use gps_device_virtual_farm.Checkpoints.Store.{
  Snapshot, LoadResult, loaded, Store, constants, new_store, Reading, intact, read_file,
  snapshot_of, accept_payload, after_reading, load_files, load_run, load_with, load, WriteOutcome,
  saved, payload_of, envelope_of, save, close,
}
use gps_device_virtual_farm.Checkpoints.Order.{Below, generation_files-newer}
use gps_device_virtual_farm.Checkpoints.Prune.{file_of}
use gps_device_virtual_farm.Checkpoints.Tracks.{Tracks, load-Tracks, load-constants}
use gps_device_virtual_farm.Checkpoints.Save.{save-Result}

-- SHA-256 gives 64 hexadecimal digits.
abbrev pub Digests : Library → Type 0
Digests lib = (p : Payload) → is_digest (lib.checksum_of p) ≡ true

-- The calls that an application makes of its store, one after the other; a save has its time and what
-- becomes of its file, and a `close` whether it throws.
pub data Request : Type 0 where
  loads : Request
  closes : Bool → Request
  saves : ℕ → WriteOutcome → List VehicleState → Request

unfoldable pub serve : Library → Request → List DiskFile × Store → List DiskFile × Store
serve lib loads (disk, s) = (disk, (load lib disk s).1)
serve lib (closes throws) (disk, s) = (disk, close throws s)
serve lib (saves now outcome states) (disk, s) = (save lib now outcome states disk s).1

unfoldable pub serve_all : Library → List Request → List DiskFile × Store → List DiskFile × Store
serve_all lib [] at = at
serve_all lib (r ∷ rs) at = serve_all lib rs (serve lib r at)

-- The store tracks its directory, and the constructor's fields are as they were.
abbrev Follows : List ℕ × (List ℕ × (ℕ × ℕ)) → List DiskFile × Store → Type 0
Follows fixed at = Tracks at.1 at.0 × (constants at.1 ≡ fixed)

Tracks-close :
    (throws : Bool) (s : Store) (disk : List DiskFile)
    → Tracks s disk
    → Tracks (close throws s) disk × (constants (close throws s) ≡ constants s)
unfolding close
Tracks-close throws s disk h =
    holds_if (λ after. Tracks after disk × (constants after ≡ constants s)) s.closed (h, refl)
      (
        record {
          keeps_some = h.keeps_some;
          corrupt_known = h.corrupt_known;
          not_ahead = h.not_ahead;
          bounded = h.bounded;
        },
        refl,
      )

Follows-serve :
    (lib : Library) (r : Request) (fixed : List ℕ × (List ℕ × (ℕ × ℕ))) (disk : List DiskFile)
    (s : Store)
    → Follows fixed (disk, s)
    → Follows fixed (serve lib r (disk, s))
unfolding serve
Follows-serve lib loads fixed disk s (h, e) =
    (load-Tracks lib disk s h, load-constants lib disk s h ∙ e)
Follows-serve lib (closes throws) fixed disk s (h, e) =
    ((Tracks-close throws s disk h).0, (Tracks-close throws s disk h).1 ∙ e)
Follows-serve lib (saves now outcome states) fixed disk s (h, e) =
    let r = save-Result lib now outcome states disk s h in (r.tracks, r.same_constants ∙ e)

Follows-serve_all :
    (lib : Library) (rs : List Request) (fixed : List ℕ × (List ℕ × (ℕ × ℕ))) (disk : List DiskFile)
    (s : Store)
    → Follows fixed (disk, s)
    → Follows fixed (serve_all lib rs (disk, s))
unfolding serve_all
Follows-serve_all lib [] fixed disk s h = h
Follows-serve_all lib (r ∷ rs) fixed disk s h =
    let next = serve lib r (disk, s) in
    Follows-serve_all lib rs fixed next.0 next.1 (Follows-serve lib r fixed disk s h)

-- A store as the constructor makes it.
abbrev pub fresh_of : List ℕ × (List ℕ × (ℕ × ℕ)) → Store
fresh_of (run, (digest, (max_generations, max_bytes))) =
    new_store run digest max_generations max_bytes

Tracks-new_store :
    (run digest : List ℕ) (max_generations max_bytes : ℕ) (disk : List DiskFile)
    → 1 ≤ max_generations
    → Tracks (new_store run digest max_generations max_bytes) disk
Tracks-new_store run digest max_generations max_bytes disk h = record {
  keeps_some = h;
  corrupt_known = tt;
  not_ahead = λ _. omega arith;
  bounded = inr (refl, refl);
}

-- The new file is intact.
read_file-file_of :
    (lib : Library) (before after : Store) (now : ℕ) (states : List VehicleState)
    → Digests lib
    → is_digest before.route_pack_digest ≡ true
    → after.run_id ≡ before.run_id
    → after.max_bytes ≡ before.max_bytes
    → lib.byte_length
        (envelope_of lib (payload_of before (before.latest_file_generation + 1) now states))
      ≤ before.max_bytes
    → validate_states states ≡ true
    → read_file lib after (file_of lib before now states)
      ≡ intact (payload_of before (before.latest_file_generation + 1) now states)
unfolding read_file validate_envelope envelope_of payload_of
read_file-file_of lib before after now states sha hex run max fits valid =
    let p = payload_of before (before.latest_file_generation + 1) now states in
    rw (run, max)
      (ground (
        arith,
        sha p,
        hex,
        fits,
        valid,
        same_text_refl before.run_id,
        same_text_refl (lib.checksum_of p),
      ))

accept_payload-loaded :
    (p : Payload) (number : ℕ) (recovered : Bool) (s : Store)
    → p.schema_version ≡ 1
    → same_text p.route_pack_digest s.route_pack_digest ≡ true
    → (accept_payload p number recovered s).0 ≡ loaded (snapshot_of p number recovered)
unfolding accept_payload
accept_payload-loaded p number recovered s schema pack = ground (arith, schema, pack)

after_reading-intact :
    (number : ℕ) (recovered : Bool) (s : Store) (rest : LoadResult × Store) (r : Reading)
    (p : Payload)
    → r ≡ intact p
    → (after_reading number recovered s rest r).0 ≡ (accept_payload p number recovered s).0
unfolding after_reading
after_reading-intact number recovered s rest r p e =
    ap (λ r. (after_reading number recovered s rest r).0) e

-- A run whose newest file is intact, and of this schema and pack, loads it.
load_run-first :
    (lib : Library) (f : DiskFile) (fs : List DiskFile) (s : Store) (p : Payload)
    → read_file lib (record s { latest_file_generation = f.number }) f ≡ intact p
    → p.schema_version ≡ 1
    → same_text p.route_pack_digest s.route_pack_digest ≡ true
    → (load_run lib (f ∷ fs) s).0 ≡ loaded (snapshot_of p f.number false)
unfolding load_run load_files
load_run-first lib f fs s p read schema pack =
    let now = record s { latest_file_generation = f.number } in
    after_reading-intact f.number false now _ (read_file lib now f) p read
    ∙ accept_payload-loaded p f.number false now schema pack

load-first :
    (lib : Library) (before : Store) (now : ℕ) (states : List VehicleState) (rest : List DiskFile)
    → Digests lib
    → is_digest before.route_pack_digest ≡ true
    → lib.byte_length
        (envelope_of lib (payload_of before (before.latest_file_generation + 1) now states))
      ≤ before.max_bytes
    → validate_states states ≡ true
    → Below before.run_id before.latest_file_generation rest
    → (load lib (file_of lib before now states ∷ rest) (fresh_of (constants before))).0
      ≡ loaded (
          snapshot_of
            (payload_of before (before.latest_file_generation + 1) now states)
            (before.latest_file_generation + 1)
            false)
unfolding load load_with payload_of
load-first lib before now states rest sha hex fits valid older =
    let f = file_of lib before now states in
    let s = fresh_of (constants before) in
    ap (λ fs. (load_run lib fs s).0)
      (generation_files-newer before.run_id f rest before.latest_file_generation
        (same_text_refl before.run_id) older (omega arith))
    ∙ load_run-first lib f (generation_files before.run_id rest) s _
        (read_file-file_of lib before (record s { latest_file_generation = f.number }) now states
          sha hex refl refl fits valid)
        refl (same_text_refl before.route_pack_digest)

abbrev pub snapshot : ℕ → ℕ → List ℕ → List VehicleState → Snapshot
snapshot generation time digest states = record {
  generation = generation;
  created_at_utc = time;
  route_pack_digest = digest;
  states = states;
  recovered_from_corruption = false;
}

-- What was saved is loaded. A store is made and serves any calls, over any directory, whether they succeed
-- or fail at any point of the file system; then a save is reported with a generation and a time. Then a
-- new store of the same run and route pack loads, from the directory that the save leaves, the states that
-- were saved, with that generation and that time, and meets no corruption. Assumed is that SHA-256 gives
-- 64 hexadecimal digits, and of the constructor that a generation is kept and the pack's digest is one.
pub load-save :
    (lib : Library) (run digest : List ℕ) (max_generations max_bytes : ℕ) (disk : List DiskFile)
    (calls : List Request) (at : List DiskFile × Store) (now : ℕ) (outcome : WriteOutcome)
    (states : List VehicleState) (g t k : ℕ)
    → Digests lib
    → is_digest digest ≡ true
    → 1 ≤ max_generations
    → serve_all lib calls (disk, new_store run digest max_generations max_bytes) ≡ at
    → (save lib now outcome states at.0 at.1).0 ≡ saved g t k
    → (load lib
        (save lib now outcome states at.0 at.1).1.0
        (new_store run digest max_generations max_bytes)).0
      ≡ loaded (snapshot g t digest states)
unfolding snapshot_of payload_of
load-save lib run digest max_generations max_bytes disk calls at now outcome states g t k sha hex
      keeps here e =
    let start = new_store run digest max_generations max_bytes in
    let fixed = constants start in
    let (tracks, same) = subst (Follows fixed) here (
      Follows-serve_all lib calls fixed disk start
        (Tracks-new_store run digest max_generations max_bytes disk keeps, refl)) in
    let r = (save-Result lib now outcome states at.0 at.1 tracks).reported g t k e in
    let all_same = r.same_constants ∙ same in
    let own : r.before.route_pack_digest ≡ digest = ap (λ c. c.1.0) all_same in
    let hex_before = subst (λ d. is_digest d ≡ true) (sym own) hex in
    ap (λ d. (load lib d start).0) r.file_first
    ∙ ap (λ c. (load lib (file_of lib r.before now states ∷ r.rest) (fresh_of c)).0) (sym all_same)
    ∙ load-first lib r.before now states r.rest sha hex_before r.fits r.valid r.others_older
    ∙ ap (λ n. loaded (snapshot n now r.before.route_pack_digest states)) (sym r.of_generation)
    ∙ ap (λ n. loaded (snapshot g n r.before.route_pack_digest states)) (sym r.of_time)
    ∙ ap (λ d. loaded (snapshot g t d states)) own
