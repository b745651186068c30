-- ===== src/Status/Examples.antt =====
-- The theorem on src/main/road-preparation-status-store.js at a run that is under way.
use gps_device_virtual_farm.Prelude.{
  ℕ, ◌≡◌, ◌≢◌, refl, true, false, none, some, List, [], ◌∷◌, replicate,
}
use gps_device_virtual_farm.Prelude.Texts.{is_digest, are_hex}
use gps_device_virtual_farm.Status.{
  running, finite, text, Status, normalize_status, normalize_with, normal_numbers, normal_number,
  are_texts, is_retry_at, is_resume, is_composition, is_some, is_integer_to,
}
use gps_device_virtual_farm.Status.Store.{
  StatusRecord, ReadStatus, Lengths, read, write, then_checked, checked_length, record_of,
}
use gps_device_virtual_farm.Status.Normal.{IsInterrupted, read-write}

abbrev scope : List ℕ
scope = replicate 64 97

abbrev short : Lengths
short r = 500

-- The first numbers of a status, of which one is not whole.
abbrev status : Status
status = record {
  state = some running;
  numbers = some (finite 7000) ∷ none ∷ some (finite 2000000) ∷ none ∷ some (finite 1234600) ∷ [];
  texts = some (text (114 ∷ [])) ∷ none ∷ [];
  retry_at = some (finite 1000);
  resume_available = some (some true);
  composition = none;
}

abbrev normal : Status
normal = record status {
  numbers = some (finite 7000) ∷ none ∷ some (finite 2000000) ∷ none ∷ some (finite 1235000) ∷ [];
}

abbrev written : StatusRecord
written = record {
  schema_version = 1;
  scope = scope;
  status = normal;
  last_updated_at = finite 5000;
}

status_written : write short scope 5 status ≡ some written
unfolding write is_digest are_hex then_checked checked_length record_of normalize_status
    normalize_with normal_numbers normal_number are_texts is_retry_at is_resume is_composition
    is_some is_integer_to
status_written = refl

read-write_example :
    (n : Status) × (view : ReadStatus) × (normalize_status status ≡ some n)
    × (read short scope written ≡ some view)
    × (view.last_updated_at ≡ finite 5000)
    × (n.state ≡ some running → IsInterrupted n view)
    × (n.state ≢ some running → (view.interrupted ≡ false) × (view.status ≡ n))
read-write_example = read-write short scope 5 status written status_written
