-- ===== src/Checkpoints/Examples.antt =====
-- The theorem on src/main/road-checkpoint-store.js at a run of three saves.
use gps_device_virtual_farm.Prelude.{ℕ, ◌≡◌, refl, true, List, [], ◌∷◌, arith, replicate}
use gps_device_virtual_farm.Prelude.Texts.{is_digest, are_hex, are_digits, has_text, same_text}
use gps_device_virtual_farm.Prelude.Sets.{has, delete}
use gps_device_virtual_farm.Checkpoints.Json.{VehicleState, end, are_safe, assert_fields_safe}
use gps_device_virtual_farm.Checkpoints.{
  DiskFile, Library, generation_files, insert_file, validate_states, are_states, unlink,
}
use gps_device_virtual_farm.Checkpoints.Store.{
  Store, loaded, new_store, load, written, not_synced, saved, save, load_with, load_run,
  kept_result, save_run, write_file, put_file, after_write, prune_files, payload_of, envelope_of,
  snapshot_of, is_error,
}
use gps_device_virtual_farm.Checkpoints.Reload.{
  Request, saves, serve_all, serve, snapshot, Digests, load-save,
}

abbrev digest : List ℕ
digest = replicate 64 97

-- A hash that is the same for all texts.
abbrev library : Library
library = record { checksum_of = λ p. digest; byte_length = λ e. 100 }

library-Digests : Digests library
unfolding is_digest are_hex
library-Digests p = refl

digest_hex : is_digest digest ≡ true
unfolding is_digest are_hex
digest_hex = refl

abbrev vehicle : VehicleState
vehicle = record { imei = replicate 15 49; fields = end }

abbrev run : List ℕ
run = 114 ∷ []

-- One save succeeds, and the directory cannot be synchronised after the next.
abbrev calls : List Request
calls = saves 1000 (written 9) (vehicle ∷ []) ∷ saves 2000 not_synced [] ∷ []

abbrev served : List DiskFile × Store
served = serve_all library calls ([], new_store run digest 3 1024)

served_saves : (save library 3000 (written 9) (vehicle ∷ []) served.0 served.1).0 ≡ saved 2 3000 1
unfolding serve_all serve save load load_with load_run kept_result generation_files insert_file
    validate_states are_states are_digits has_text are_safe save_run write_file put_file unlink
    after_write prune_files payload_of envelope_of snapshot_of same_text has delete is_error
    assert_fields_safe
served_saves = refl

load-save_example :
    (load library
      (save library 3000 (written 9) (vehicle ∷ []) served.0 served.1).1.0
      (new_store run digest 3 1024)).0
    ≡ loaded (snapshot 2 3000 digest (vehicle ∷ []))
load-save_example =
    load-save library run digest 3 1024 [] calls served 3000 (written 9) (vehicle ∷ []) 2 3000 1
      library-Digests digest_hex (omega arith) refl served_saves
