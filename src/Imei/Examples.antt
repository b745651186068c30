-- ===== src/Imei/Examples.antt =====
-- The theorems on src/simulator/imei.js at concrete indices.
use gps_device_virtual_farm.Prelude.{ℕ, ◌+◌, ◌≡◌, ◌≢◌, true, some, List, arith}
use gps_device_virtual_farm.Gt06.Bcd.{is_imei}
use gps_device_virtual_farm.Imei.{imei_start, generate_imei}
use gps_device_virtual_farm.Imei.Digits.{value_from, generate_imei_lem, generate_imei-injective}

generate_imei_lem_example :
    (imei : List ℕ) × (generate_imei 41 ≡ some imei)
    × (is_imei imei ≡ true)
    × (value_from 0 imei ≡ imei_start + 41)
generate_imei_lem_example = generate_imei_lem 41 (omega arith)

generate_imei-injective_example : generate_imei 7 ≢ generate_imei 8
generate_imei-injective_example =
    generate_imei-injective 7 8 (omega arith) (omega arith) (omega arith)
