-- ===== src/Fnv1a.antt =====
-- src/simulator/geo.js: `fnv1a`, the 32-bit hash from which a device's own constants are drawn.
use gps_device_virtual_farm.Prelude.{ℕ, ◌*◌, ◌%◌, ◌^◌, ◌<◌, bit_xor, List, [], ◌∷◌, arith}

-- The loop, over the character codes. `Math.imul` keeps the low 32 bits.
pub hash_codes : ℕ → List ℕ → ℕ
hash_codes hash [] = hash
hash_codes hash (c ∷ cs) = hash_codes (bit_xor hash c * 0x01000193 % 2 ^ 32) cs

-- `fnv1a(value)`
unfoldable pub fnv1a : List ℕ → ℕ
unfolding hash_codes
fnv1a value = hash_codes 0x811c9dc5 value

hash_codes-lt : (hash : ℕ) (cs : List ℕ) → hash < 2 ^ 32 → hash_codes hash cs < 2 ^ 32
unfolding hash_codes
hash_codes-lt hash [] h = h
hash_codes-lt hash (c ∷ cs) h =
    hash_codes-lt (bit_xor hash c * 0x01000193 % 2 ^ 32) cs (omega arith)

-- A hash is an unsigned 32-bit number.
pub fnv1a-lt : (value : List ℕ) → fnv1a value < 2 ^ 32
unfolding fnv1a
fnv1a-lt value = hash_codes-lt 0x811c9dc5 value (omega arith)
