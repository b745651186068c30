-- ===== src/Status/Store.antt =====
-- src/main/road-preparation-status-store.js: reading and writing the one file of the store.
use gps_device_virtual_farm.Prelude.{
  ℕ, ◌*◌, ◌%◌, Bool, true, false, ◌&&◌, Option, none, some, List, ltb, leb, ◌==◌, if◌then◌else◌,
  set,
}
use gps_device_virtual_farm.Prelude.Texts.{same_text, is_digest}
use gps_device_virtual_farm.Status.{RunState, running, Number, finite, Status, normalize_status}

-- What is written: a status with its schema, its scope and its time.
pub record StatusRecord : Type 0 where
  pub schema_version : ℕ
  pub scope : List ℕ
  pub status : Status
  pub last_updated_at : Number

-- What is read; a run that was under way was interrupted, and then no times that lie ahead are given.
pub record ReadStatus : Type 0 where
  pub interrupted : Bool
  pub status : Status
  pub last_updated_at : Number

-- The length of a record's JSON text, of Node's libraries.
abbrev pub Lengths : Type 0
Lengths = StatusRecord → ℕ

abbrev pub is_running : Option RunState → Bool
is_running (some running) = true
is_running _ = false

abbrev is_time : Number → Bool
is_time (finite v) = v % 1000 == 0
is_time _ = false

-- `estimatedRemainingMs` and `retryInMs` are the fields 14 and 15 of NUMBER_FIELDS.
unfoldable pub without_times : Status → Status
without_times s = record s { numbers = set (set s.numbers 14 none) 15 none; retry_at = none }

unfoldable pub read_view : Number → Option Status → Option ReadStatus
read_view at none = none
read_view at (some s) = some (record {
  interrupted = is_running s.state;
  status = if is_running s.state then without_times s else s;
  last_updated_at = at;
})

-- `read(scope)`, of a file that could be read and parsed
unfoldable pub read : Lengths → List ℕ → StatusRecord → Option ReadStatus
read lengths scope r =
    if is_digest scope
      && (leb (lengths r) 16384
          && (r.schema_version == 1 && (same_text r.scope scope && is_time r.last_updated_at)))
    then read_view r.last_updated_at (normalize_status r.status)
    else none

unfoldable pub checked_length : Lengths → StatusRecord → Option StatusRecord
checked_length lengths r = if ltb 16384 (lengths r) then none else some r

unfoldable pub record_of : List ℕ → ℕ → Option Status → Option StatusRecord
record_of scope now none = none
record_of scope now (some s) = some (record {
  schema_version = 1;
  scope = scope;
  status = s;
  last_updated_at = finite (now * 1000);
})

unfoldable pub then_checked : Lengths → Option StatusRecord → Option StatusRecord
then_checked lengths none = none
then_checked lengths (some r) = checked_length lengths r

-- `write(scope, status)` at the time `now`: the record that replaces the file, or an error before any
-- access to it.
unfoldable pub write : Lengths → List ℕ → ℕ → Status → Option StatusRecord
write lengths scope now s =
    if is_digest scope
    then then_checked lengths (record_of scope now (normalize_status s))
    else none
