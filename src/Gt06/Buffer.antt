-- ===== src/Gt06/Buffer.antt =====
-- What src/simulator/gt06.js uses of Node's Buffer: a list of bytes.
use gps_device_virtual_farm.Prelude.{
  ℕ, ◌^◌, Option, none, some, ltb, if◌then◌else◌, ◌+◌, ◌-◌, ◌*◌, ◌/◌, ◌%◌, ◌<◌, List, [], ◌∷◌,
  get_or, take, drop, All,
}

abbrev pub IsByte : ℕ → Type 0
IsByte b = b < 256

-- Every element is a byte.
abbrev pub AreBytes : List ℕ → Type 0
AreBytes = All IsByte

-- `buffer.subarray(start, end)` for `start ≤ end`
abbrev pub subarray : List ℕ → ℕ → ℕ → List ℕ
subarray buffer start end = take (end - start) (drop start buffer)

-- `buffer.readUInt16BE(offset)` inside the buffer
abbrev pub read_uint16_be : List ℕ → ℕ → ℕ
read_uint16_be buffer offset = get_or buffer offset 0 * 256 + get_or buffer (offset + 1) 0

-- `buffer.readUInt32BE(offset)` inside the buffer
abbrev pub read_uint32_be : List ℕ → ℕ → ℕ
read_uint32_be buffer offset =
    read_uint16_be buffer offset * 65536 + read_uint16_be buffer (offset + 2)

-- The two bytes that `writeUInt16BE(value)` writes, for `value < 2 ^ 16`
abbrev pub uint16_be : ℕ → List ℕ
uint16_be value = value / 256 ∷ value % 256 ∷ []

-- The four bytes that `writeUInt32BE(value)` writes, for `value < 2 ^ 32`
abbrev pub uint32_be : ℕ → List ℕ
uint32_be value = value / 16777216 ∷ value / 65536 % 256 ∷ value / 256 % 256 ∷ value % 256 ∷ []

-- `writeUInt32BE(value)`, which throws a RangeError at 2 ^ 32 and above
unfoldable pub write_uint32_be : ℕ → Option (List ℕ)
write_uint32_be value = if ltb value (2 ^ 32) then some (uint32_be value) else none
