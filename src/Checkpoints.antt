-- ===== src/Checkpoints.antt =====
-- src/main/road-checkpoint-store.js: the store of the vehicles' checkpoints. The directory is the list of
-- its checkpoint files, by the run and the generation that a file's name is made of; other names are
-- skipped by the code and stand in no list. Texts are lists of character codes.
pub mod Json
pub mod Store
pub mod Order
pub mod Prune
pub mod Tracks
pub mod Save
pub mod Reload
mod Examples
use gps_device_virtual_farm.Prelude.{
  ℕ, ◌+◌, Bool, true, false, not, ◌&&◌, ◌||◌, Option, none, some, List, [], ◌∷◌, ltb, leb, ◌==◌,
  if◌then◌else◌, length,
}
use gps_device_virtual_farm.Prelude.Texts.{same_text, has_text, are_digits, is_digest}
use gps_device_virtual_farm.Checkpoints.Json.{VehicleState, are_safe}

-- The payload of a file, and the envelope with its checksum.
pub record Payload : Type 0 where
  pub schema_version : ℕ
  pub run_id : List ℕ
  pub route_pack_digest : List ℕ
  pub generation : ℕ
  pub created_at_utc : ℕ
  pub states : List VehicleState

pub record Envelope : Type 0 where
  pub payload : Payload
  pub checksum : List ℕ

-- What is under a name: a file with an envelope, text that is none or no file at all, or a file that may
-- not be read (EACCES, EPERM).
pub data Content : Type 0 where
  holds : Envelope → Content
  garbage denied : Content

pub record DiskFile : Type 0 where
  pub run : List ℕ
  pub number : ℕ
  pub content : Content

-- Of Node's libraries: SHA-256 of a payload's JSON text, and the length of an envelope's.
pub record Library : Type 0 where
  pub checksum_of : Payload → List ℕ
  pub byte_length : Envelope → ℕ

-- The rest of `cloneAndValidateStates` once the length is checked: `seen` are the IMEIs before.
unfoldable pub are_states : List (List ℕ) → List VehicleState → Bool
are_states seen [] = true
are_states seen (s ∷ ss) =
    (length s.imei == 15 && are_digits s.imei)
    && (not (has_text seen s.imei) && are_states (s.imei ∷ seen) ss)

-- `cloneAndValidateStates(states)`; the clone is equal to what it is made from.
unfoldable pub validate_states : List VehicleState → Bool
validate_states states = leb (length states) 50000 && (are_states [] states && are_safe 1 states)

-- `validateEnvelope(envelope, runId, generation)`
unfoldable pub validate_envelope : Library → Envelope → List ℕ → ℕ → Bool
validate_envelope lib e run generation =
    (is_digest e.checksum && same_text e.checksum (lib.checksum_of e.payload))
    && ((same_text e.payload.run_id run && e.payload.generation == generation)
        && (is_digest e.payload.route_pack_digest && validate_states e.payload.states))

-- The order of `sort((a, b) => b.generation - a.generation)`
unfoldable pub insert_file : DiskFile → List DiskFile → List DiskFile
insert_file f [] = f ∷ []
insert_file f (g ∷ gs) =
    let rest = insert_file f gs in if leb g.number f.number then f ∷ g ∷ gs else g ∷ rest

-- `#generationFiles()`
unfoldable pub generation_files : List ℕ → List DiskFile → List DiskFile
generation_files run [] = []
generation_files run (f ∷ fs) =
    let rest = generation_files run fs in if same_text f.run run then insert_file f rest else rest

-- `fs.unlink`
unfoldable pub unlink : List ℕ → ℕ → List DiskFile → List DiskFile
unlink run number [] = []
unlink run number (f ∷ fs) =
    let rest = unlink run number fs in
    if same_text f.run run && f.number == number then rest else f ∷ rest
