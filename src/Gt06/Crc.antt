-- ===== src/Gt06/Crc.antt =====
-- src/simulator/gt06.js: the CRC-ITU checksum, by a table, and bit by bit.
pub mod Laws
use gps_device_virtual_farm.Prelude.{
  ℕ, zero, suc, ◌+◌, ◌-◌, ◌/◌, ◌%◌, bit_xor, List, [], ◌∷◌, ◌==◌, if◌then◌else◌, length, get_or,
}

-- One round of the inner loop of `buildCrcTable`.
unfoldable pub crc_round : ℕ → ℕ
crc_round crc = if crc % 2 == 0 then crc / 2 else bit_xor (crc / 2) 0x8408

-- The inner loop, `n` rounds of it.
unfoldable pub crc_rounds : ℕ → ℕ → ℕ
crc_rounds zero crc = crc
crc_rounds (suc n) crc = crc_rounds n (crc_round crc)

-- The outer loop of `buildCrcTable`: the entries from `i` on, `n` of them. An entry fits the
-- `Uint16Array`.
unfoldable pub crc_entries : ℕ → ℕ → List ℕ
crc_entries zero i = []
crc_entries (suc n) i = crc_rounds 8 i ∷ crc_entries n (suc i)

-- `CRC_TABLE`
unfoldable pub crc_table : List ℕ
crc_table = crc_entries 256 0

-- The body of the loop of `crc16itu`, for the byte `byte`.
unfoldable pub crc_step : ℕ → ℕ → ℕ
crc_step crc byte = bit_xor (crc / 256) (get_or crc_table (bit_xor crc byte % 256) 0)

-- The loop, for `n` bytes from `index` on. A byte past the end reads as `undefined`, which `^` takes
-- for 0.
unfoldable pub crc_loop : ℕ → ℕ → List ℕ → ℕ → ℕ
crc_loop zero index buffer crc = crc
crc_loop (suc n) index buffer crc =
    crc_loop n (suc index) buffer (crc_step crc (get_or buffer index 0))

-- `crc16itu(buffer, start, end)`
unfoldable pub crc16itu : List ℕ → ℕ → ℕ → ℕ
crc16itu buffer start end = bit_xor (crc_loop (end - start) start buffer 0xffff) 0xffff
