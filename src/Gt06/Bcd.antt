-- ===== src/Gt06/Bcd.antt =====
-- src/simulator/gt06.js: `encodeImeiBcd` and `decodeImeiBcd`. A string is the list of its character
-- codes; `none` is a thrown error.
use gps_device_virtual_farm.Prelude.{
  ℕ, zero, suc, ◌↔◌, ◌+◌, ◌-◌, ◌*◌, ◌/◌, ◌^◌, ◌<◌, ◌≡◌, refl, ap, bit_and, bit_or, Bool, true, ◌&&◌,
  Option, none, some, List, [], ◌∷◌, ◌++◌, arith, ltb, leb, ◌==◌, if◌then◌else◌, length, All, ◌≤◌,
}
use gps_device_virtual_farm.Prelude.Bits.{bit_and_mask, bit_or_disjoint}
use gps_device_virtual_farm.Gt06.Buffer.{AreBytes}

-- `\d`
abbrev pub is_digit : ℕ → Bool
is_digit c = leb 48 c && leb c 57

unfoldable pub all_digits : List ℕ → Bool
all_digits [] = true
all_digits (c ∷ cs) = is_digit c && all_digits cs

-- `/^\d{15}$/.test(imei)`
unfoldable pub is_imei : List ℕ → Bool
unfolding all_digits
is_imei imei = length imei == 15 && all_digits imei

-- The loop of `encodeImeiBcd`: two digits to a byte.
pack_digits : List ℕ → List ℕ
pack_digits (a ∷ b ∷ cs) = bit_or ((a - 48) * 2 ^ 4) (b - 48) ∷ pack_digits cs
pack_digits _ = []

-- `encodeImeiBcd(imei)`
unfoldable pub encode_imei_bcd : List ℕ → Option (List ℕ)
unfolding pack_digits
encode_imei_bcd imei = if is_imei imei then some (pack_digits (48 ∷ imei)) else none

-- `String(nibble)` for a number below 16
nibble_digits : ℕ → List ℕ
nibble_digits n = if ltb n 10 then (48 + n) ∷ [] else 49 ∷ (38 + n) ∷ []

-- The loop of `decodeImeiBcd`.
unpack_digits : List ℕ → List ℕ
unfolding nibble_digits
unpack_digits [] = []
unpack_digits (byte ∷ bytes) =
    (nibble_digits (bit_and (byte / 2 ^ 4) 0x0f) ++ nibble_digits (bit_and byte 0x0f))
    ++ unpack_digits bytes

-- `digits.replace(/^0/, '')`
strip_zero : List ℕ → List ℕ
strip_zero [] = []
strip_zero (c ∷ cs) = if c == 48 then cs else c ∷ cs

-- `decodeImeiBcd(buffer)`
unfoldable pub decode_imei_bcd : List ℕ → Option (List ℕ)
unfolding unpack_digits strip_zero
decode_imei_bcd buffer =
    if length buffer == 8 then some (strip_zero (unpack_digits buffer)) else none

-- A packed byte, as a sum, and its two nibbles.
packed_byte : (a b : ℕ) → b < 10 → bit_or (a * 2 ^ 4) b ≡ a * 16 + b
packed_byte a b h = bit_or_disjoint 4 a b (omega arith)

unpack_digits_cons :
    (a b : ℕ) (bytes : List ℕ)
    → is_digit a ≡ true
    → is_digit b ≡ true
    → unpack_digits (bit_or ((a - 48) * 2 ^ 4) (b - 48) ∷ bytes) ≡ a ∷ b ∷ unpack_digits bytes
unfolding unpack_digits
unpack_digits_cons a b bytes p q =
    let byte = bit_or ((a - 48) * 2 ^ 4) (b - 48) in
    let small : b - 48 < 10 = ground arith in
    let large : a - 48 < 10 = ground arith in
    ground (
      arith,
      packed_byte (a - 48) (b - 48) small,
      bit_and_mask 4 (byte / 2 ^ 4),
      bit_and_mask 4 byte,
    )

unpack_digits-pack_digits :
    (n : ℕ) (cs : List ℕ)
    → length cs ≡ 2 * n
    → all_digits cs ≡ true
    → unpack_digits (pack_digits cs) ≡ cs
unfolding pack_digits all_digits
unpack_digits-pack_digits n [] e h = unfold unpack_digits in refl
unpack_digits-pack_digits n (a ∷ []) e h = absurd (omega arith)
unpack_digits-pack_digits zero (a ∷ b ∷ cs) e h = absurd (omega arith)
unpack_digits-pack_digits (suc n) (a ∷ b ∷ cs) e h =
    rw (unpack_digits_cons a b (pack_digits cs) (ground arith) (ground arith))
      (ap (λ ds. a ∷ b ∷ ds) (unpack_digits-pack_digits n cs (omega arith) (ground arith)))

pack_digits_bytes :
    (n : ℕ) (cs : List ℕ)
    → length cs ≡ 2 * n
    → all_digits cs ≡ true
    → (length (pack_digits cs) ≡ n) × AreBytes (pack_digits cs)
unfolding pack_digits all_digits
pack_digits_bytes n [] e h = (omega arith, tt)
pack_digits_bytes n (a ∷ []) e h = absurd (omega arith)
pack_digits_bytes zero (a ∷ b ∷ cs) e h = absurd (omega arith)
pack_digits_bytes (suc n) (a ∷ b ∷ cs) e h =
    let small : b - 48 < 10 = ground arith in
    let large : a - 48 < 10 = ground arith in
    let rest = pack_digits_bytes n cs (omega arith) (ground arith) in
    (ap suc rest.0, (omega (arith, packed_byte (a - 48) (b - 48) small), rest.1))

-- Every string of 15 digits, also one that begins with 0, is encoded in eight bytes, and decoding
-- these gives the string back.
pub decode_imei_bcd-encode_imei_bcd :
    (imei : List ℕ)
    → is_imei imei ≡ true
    → (bcd : List ℕ) × (encode_imei_bcd imei ≡ some bcd)
      × (length bcd ≡ 8)
      × AreBytes bcd
      × (decode_imei_bcd bcd ≡ some imei)
unfolding encode_imei_bcd is_imei decode_imei_bcd
decode_imei_bcd-encode_imei_bcd imei h =
    let padded : all_digits (48 ∷ imei) ≡ true = ground arith in
    let size : length (48 ∷ imei) ≡ 16 = ground arith in
    let bytes = pack_digits_bytes 8 (48 ∷ imei) size padded in
    let back = unpack_digits-pack_digits 8 (48 ∷ imei) size padded in
    (pack_digits (48 ∷ imei), rw h, bytes.0, bytes.1, rw (bytes.0, back) refl)

all_digits-All : (cs : List ℕ) → all_digits cs ≡ true → All (λ c. (48 ≤ c) × (c ≤ 57)) cs
unfolding all_digits
all_digits-All [] h = tt
all_digits-All (c ∷ cs) h = (ground arith, all_digits-All cs (ground (arith, h)))

all_digits_of : (cs : List ℕ) → All (λ c. (48 ≤ c) × (c ≤ 57)) cs → all_digits cs ≡ true
unfolding all_digits
all_digits_of [] h = refl
all_digits_of (c ∷ cs) h = ground (arith, h.0, all_digits_of cs h.1)

-- A string is packed exactly if it has 15 characters and each of them is a digit; for any other one
-- `encodeImeiBcd` throws.
pub encode_imei_bcd-some :
    (imei : List ℕ)
    → ((bcd : List ℕ) × (encode_imei_bcd imei ≡ some bcd))
      ↔ ((length imei ≡ 15) × All (λ c. (48 ≤ c) × (c ≤ 57)) imei)
unfolding encode_imei_bcd is_imei
encode_imei_bcd-some imei = (
  λ (bcd, e). (ground (arith, e), all_digits-All imei (ground (arith, e))),
  λ (size, digits). (pack_digits (48 ∷ imei), ground (arith, size, all_digits_of imei digits)),
)
