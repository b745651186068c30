-- ===== src/Checkpoints/Store.antt =====
-- src/main/road-checkpoint-store.js: the class RoadCheckpointStore. Its queue runs one operation at a
-- time, so that an operation takes the store and the directory and returns both.
use gps_device_virtual_farm.Prelude.{
  ℕ, suc, zero, ◌+◌, Bool, true, false, not, ◌&&◌, ◌||◌, Option, none, some, List, [], ◌∷◌, ltb,
  leb, ◌==◌, if◌then◌else◌, length,
}
use gps_device_virtual_farm.Prelude.Sets.{has, insert, delete}
use gps_device_virtual_farm.Prelude.Texts.{same_text}
use gps_device_virtual_farm.Checkpoints.Json.{VehicleState}
use gps_device_virtual_farm.Checkpoints.{
  Payload, Envelope, holds, garbage, denied, DiskFile, Library, validate_states, validate_envelope,
  generation_files, unlink,
}

-- What `load` gives.
pub record Snapshot : Type 0 where
  pub generation : ℕ
  pub created_at_utc : ℕ
  pub route_pack_digest : List ℕ
  pub states : List VehicleState
  pub recovered_from_corruption : Bool

pub data LoadResult : Type 0 where
  fresh : LoadResult
  loaded : Snapshot → LoadResult
  closed_store no_permission other_schema other_pack no_intact : LoadResult

-- The fields of a RoadCheckpointStore; `load_result` is what its `loadPromise` gives, if there is one.
pub record Store : Type 0 where
  pub run_id : List ℕ
  pub route_pack_digest : List ℕ
  pub max_generations : ℕ
  pub max_bytes : ℕ
  pub generation : ℕ
  pub latest_file_generation : ℕ
  pub corrupt_generations : List ℕ
  pub closing : Bool
  pub closed : Bool
  pub is_loaded : Bool
  pub load_result : Option LoadResult

-- The end of the constructor.
abbrev pub new_store : List ℕ → List ℕ → ℕ → ℕ → Store
new_store run_id digest max_generations max_bytes = record {
  run_id = run_id;
  route_pack_digest = digest;
  max_generations = max_generations;
  max_bytes = max_bytes;
  generation = 0;
  latest_file_generation = 0;
  corrupt_generations = [];
  closing = false;
  closed = false;
  is_loaded = false;
  load_result = none;
}

-- The fields that the constructor fixes.
abbrev pub constants : Store → List ℕ × (List ℕ × (ℕ × ℕ))
constants s = (s.run_id, (s.route_pack_digest, (s.max_generations, s.max_bytes)))

-- What becomes of a file that is read: it is intact, corrupt, or may not be read.
pub data Reading : Type 0 where
  intact : Payload → Reading
  corrupt unreadable : Reading

unfoldable pub read_file : Library → Store → DiskFile → Reading
read_file lib s f = elim f.content [
  | denied ↦ unreadable
  | garbage ↦ corrupt
  | holds e ↦
      if leb (lib.byte_length e) s.max_bytes && validate_envelope lib e s.run_id f.number
      then intact e.payload
      else corrupt
]

unfoldable pub snapshot_of : Payload → ℕ → Bool → Snapshot
snapshot_of p generation recovered = record {
  generation = generation;
  created_at_utc = p.created_at_utc;
  route_pack_digest = p.route_pack_digest;
  states = p.states;
  recovered_from_corruption = recovered;
}

-- What the loop of `#load` does with an intact payload; `recovered` says whether a corrupt one was met.
unfoldable pub accept_payload : Payload → ℕ → Bool → Store → LoadResult × Store
accept_payload p generation recovered s =
    if not (p.schema_version == 1)
    then (other_schema, s)
    else if not (same_text p.route_pack_digest s.route_pack_digest)
    then (other_pack, s)
    else (
      loaded (snapshot_of p generation recovered),
      record s { is_loaded = true; generation = generation },
    )

-- What follows the reading of a file, where `rest` is what comes of the older ones.
unfoldable pub after_reading : ℕ → Bool → Store → LoadResult × Store → Reading → LoadResult × Store
after_reading number recovered s rest unreadable = (no_permission, s)
after_reading number recovered s rest corrupt = rest
after_reading number recovered s rest (intact p) = accept_payload p number recovered s

-- The loop of `#load`.
unfoldable pub load_files : Library → List DiskFile → Bool → Store → LoadResult × Store
load_files lib [] recovered s = (no_intact, s)
load_files lib (f ∷ fs) recovered s =
    let rest =
      load_files lib fs true
        (record s { corrupt_generations = insert s.corrupt_generations f.number }) in
    after_reading f.number recovered s rest (read_file lib s f)

-- `#load()`, from the files of the run
unfoldable pub load_run : Library → List DiskFile → Store → LoadResult × Store
load_run lib [] s =
    (fresh, record s { is_loaded = true; generation = 0; latest_file_generation = 0 })
load_run lib (f ∷ fs) s =
    load_files lib (f ∷ fs) false (record s { latest_file_generation = f.number })

-- A result is kept unless it is an error.
unfoldable pub kept_result : LoadResult → Option LoadResult
kept_result fresh = some fresh
kept_result (loaded x) = some (loaded x)
kept_result _ = none

unfoldable pub load_with : Library → List DiskFile → Store → Option LoadResult → LoadResult × Store
load_with lib disk s (some result) = (result, s)
load_with lib disk s none =
    let after = load_run lib (generation_files s.run_id disk) s in
    (after.0, record (after.1) { load_result = kept_result after.0 })

-- `load()`
unfoldable pub load : Library → List DiskFile → Store → LoadResult × Store
load lib disk s = if s.closed then (closed_store, s) else load_with lib disk s s.load_result

-- How `#save` fares with the file system: an error before the file has its name, one after it (the
-- directory cannot be synchronised), or none; then how many files can be removed.
pub data WriteOutcome : Type 0 where
  not_written not_synced : WriteOutcome
  written : ℕ → WriteOutcome

pub data SaveResult : Type 0 where
  saved : ℕ → ℕ → ℕ → SaveResult
  is_closed invalid_states not_loaded generation_limit too_large write_error prune_error :
      SaveResult

-- The loop of `#pruneOldGenerations`; `removals` is how many calls of `unlink` succeed.
unfoldable pub prune_files :
    List DiskFile → ℕ → ℕ → List DiskFile → Store → Bool × (List DiskFile × Store)
prune_files [] kept removals disk s = (true, (disk, s))
prune_files (f ∷ fs) kept removals disk s =
    let stays = prune_files fs (kept + 1) removals disk s in
    if not (has s.corrupt_generations f.number) && ltb kept s.max_generations
    then stays
    else elim removals [
      | zero ↦ (false, (disk, s))
      | suc left ↦
          prune_files fs kept left (unlink s.run_id f.number disk)
            (record s { corrupt_generations = delete s.corrupt_generations f.number })
    ]

-- `payload` and `envelope`
unfoldable pub payload_of : Store → ℕ → ℕ → List VehicleState → Payload
payload_of s generation now states = record {
  schema_version = 1;
  run_id = s.run_id;
  route_pack_digest = s.route_pack_digest;
  generation = generation;
  created_at_utc = now;
  states = states;
}

unfoldable pub envelope_of : Library → Payload → Envelope
envelope_of lib p = record { payload = p; checksum = lib.checksum_of p }

-- The directory with the new file, which takes the place of one of its name.
unfoldable pub put_file : Store → ℕ → Envelope → List DiskFile → List DiskFile
put_file s generation e disk =
    record { run = s.run_id; number = generation; content = holds e }
    ∷ unlink s.run_id generation disk

-- `#save(states)` after its file is in place
unfoldable pub after_write :
    ℕ → ℕ → List VehicleState → List DiskFile → Store → SaveResult × (List DiskFile × Store)
after_write now removals states disk s =
    let generation = s.latest_file_generation + 1 in
    let p = payload_of s generation now states in
    let next : Store = record s {
      generation = generation;
      latest_file_generation = generation;
      load_result = some (loaded (snapshot_of p generation false));
    } in
    let pruned = prune_files (generation_files s.run_id disk) 0 removals disk next in
    (if pruned.0 then saved generation now (length states) else prune_error, pruned.1)

-- `#save(states)` from its access to the file system
unfoldable pub write_file :
    ℕ
    → List VehicleState
    → Envelope
    → List DiskFile
    → Store
    → WriteOutcome
    → SaveResult × (List DiskFile × Store)
write_file now states e disk s not_written = (write_error, (disk, s))
write_file now states e disk s not_synced =
    (write_error, (put_file s (s.latest_file_generation + 1) e disk, s))
write_file now states e disk s (written removals) =
    after_write now removals states (put_file s (s.latest_file_generation + 1) e disk) s

-- `#save(states)`, at the time `now`
unfoldable pub save_run :
    Library
    → ℕ
    → WriteOutcome
    → List VehicleState
    → List DiskFile
    → Store
    → SaveResult × (List DiskFile × Store)
save_run lib now outcome states disk s =
    let generation = s.latest_file_generation + 1 in
    let e = envelope_of lib (payload_of s generation now states) in
    if ltb 999999999999 generation
    then (generation_limit, (disk, s))
    else if ltb s.max_bytes (lib.byte_length e)
    then (too_large, (disk, s))
    else write_file now states e disk s outcome

unfoldable pub is_error : LoadResult → Bool
is_error fresh = false
is_error (loaded x) = false
is_error _ = true

-- `save(states)`
unfoldable pub save :
    Library
    → ℕ
    → WriteOutcome
    → List VehicleState
    → List DiskFile
    → Store
    → SaveResult × (List DiskFile × Store)
save lib now outcome states disk s =
    let (result, after) = load lib disk s in
    if s.closed || s.closing
    then (is_closed, (disk, s))
    else if not (validate_states states)
    then (invalid_states, (disk, s))
    else if s.is_loaded
    then save_run lib now outcome states disk s
    else if is_error result
    then (not_loaded, (disk, after))
    else save_run lib now outcome states disk after

-- `close()`, once the queue is empty. `flush()` throws again what the last save threw, if it threw; then
-- the store is closing for good, and not closed.
unfoldable pub close : Bool → Store → Store
close flush_throws s =
    if s.closed then s else record s { closing = true; closed = not flush_throws }
