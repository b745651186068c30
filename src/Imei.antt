-- ===== src/Imei.antt =====
-- src/simulator/imei.js: the IMEI of a device. A string is the list of its character codes, and `none`
-- is a thrown error.
pub mod Digits
mod Examples
use gps_device_virtual_farm.Prelude.{
  ℕ, zero, suc, ◌+◌, ◌-◌, ◌/◌, ◌%◌, Option, none, some, List, [], ◌∷◌, ◌++◌, ltb, leb,
  if◌then◌else◌, length,
}

-- `IMEI_START` and `LIMITS.maxDevices` of src/simulator/constants.js
abbrev pub imei_start : ℕ
imei_start = 358_988_888_800_001

abbrev pub max_devices : ℕ
max_devices = 50_000

-- `String(n)`, on fuel: one unit for each digit.
pub decimal : ℕ → ℕ → List ℕ
decimal zero n = []
decimal (suc fuel) n =
    let front = decimal fuel (n / 10) in
    if ltb n 10 then (48 + n) ∷ [] else front ++ (48 + n % 10) ∷ []

-- `'0'.repeat(n)`
pub zeros : ℕ → List ℕ
zeros zero = []
zeros (suc n) = 48 ∷ zeros n

-- `generateImei(index)`. The number has 15 digits at most.
unfoldable pub generate_imei : ℕ → Option (List ℕ)
unfolding decimal zeros
generate_imei index =
    let digits = decimal 15 (imei_start + index) in
    if leb max_devices index then none else some (zeros (15 - length digits) ++ digits)
