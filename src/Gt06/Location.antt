-- ===== src/Gt06/Location.antt =====
-- src/simulator/gt06.js: `buildLocation`. A coordinate is given by its size in millionths of a degree,
-- as the movement models round it, and its sign; a speed in tenths of a kilometre per hour; a course
-- and a number of satellites by the whole number that they round to; a time by
-- the UTC fields that `Date` computes, or nothing where the time is invalid. For such values the
-- products that are rounded stay away from ties, or are exact, so exact arithmetic gives the results
-- of the floating-point code.
use gps_device_virtual_farm.Prelude.{
  ℕ, zero, suc, ◌+◌, ◌*◌, ◌/◌, ◌%◌, ◌^◌, ◌≤◌, ◌<◌, ◌≡◌, refl, min, max, bit_and, bit_or, Bool, true,
  false, not, ◌&&◌, Option, none, some, List, ◌∷◌, ◌++◌, arith, ◌==◌, if◌then◌else◌,
}
use gps_device_virtual_farm.Prelude.Bits.{bit_and_mask}
use gps_device_virtual_farm.Gt06.Buffer.{uint16_be, write_uint32_be}
use gps_device_virtual_farm.Gt06.Frame.{build_frame}

pub record Timestamp : Type 0 where
  pub full_year : ℕ
  pub month : ℕ  -- `getUTCMonth()`, from 0
  pub date : ℕ
  pub hours : ℕ
  pub minutes : ℕ
  pub seconds : ℕ

pub record Point : Type 0 where
  pub latitude_micro : ℕ
  pub is_south : Bool  -- `latitude < 0`
  pub longitude_micro : ℕ
  pub is_west : Bool  -- `longitude < 0`
  pub speed_tenths : ℕ
  pub course : ℕ
  pub satellites : ℕ
  pub is_valid : Bool
  pub time : Option Timestamp

-- `Math.round(Math.abs(degrees) * 1_800_000)`
pub wire_coordinate : ℕ → ℕ
wire_coordinate micro = (micro * 18 + 5) / 10

-- `courseStatus`
pub course_status : ℕ → Bool → Bool → Bool → ℕ
course_status course is_valid is_south is_west =
    let s0 = bit_and course 0x03ff in
    let s1 = if is_valid then bit_or s0 0x1000 else s0 in
    let s2 = bit_or s1 0x2000 in
    let s3 = if is_south then s2 else bit_or s2 0x0400 in if is_west then bit_or s3 0x0800 else s3

-- The 19 bytes of `data`, with those of the latitude and of the longitude. A byte keeps
-- `getUTCFullYear() - 2000` modulo 256, and 48 is -2000 modulo 256, so a year before 2000 wraps.
unfoldable pub location_payload : Timestamp → Point → List ℕ → List ℕ → List ℕ
location_payload t p latitude longitude =
    0x12
    ∷ (t.full_year + 48) % 256
    ∷ (t.month + 1)
    ∷ t.date
    ∷ t.hours
    ∷ t.minutes
    ∷ t.seconds
    ∷ bit_or (0x0c * 2 ^ 4) (max 0 (min 15 p.satellites))
    ∷ (latitude
        ++ (longitude
            ++ max 0 (min 255 ((p.speed_tenths + 5) / 10))
              ∷ uint16_be (course_status p.course p.is_valid p.is_south p.is_west)))

-- `buildLocation(serial, point)`, from the time on
unfoldable pub build_location_at : ℕ → Point → Option Timestamp → Option (List ℕ)
unfolding location_payload course_status wire_coordinate
build_location_at serial p none = none
build_location_at serial p (some t) = elim (write_uint32_be (wire_coordinate p.latitude_micro)) [
  | none ↦ none
  | some latitude ↦ elim (write_uint32_be (wire_coordinate p.longitude_micro)) [
    | none ↦ none
    | some longitude ↦ build_frame (location_payload t p latitude longitude) serial
  ]
]

-- `buildLocation(serial, point)`
unfoldable pub build_location : ℕ → Point → Option (List ℕ)
build_location serial p = build_location_at serial p p.time

abbrev bit : Bool → ℕ
bit b = if b then 1 else 0

-- The fields of a course word.
abbrev AreFields : ℕ → ℕ → Bool → Bool → Bool → Type 0
AreFields w course is_valid is_south is_west =
    (w % 1024 ≡ course)
    × (w / 1024 % 2 ≡ bit (not is_south))
    × (w / 2048 % 2 ≡ bit is_west)
    × (w / 4096 % 2 ≡ bit is_valid)
    × (w / 8192 ≡ 1)

fields_test : Bool → Bool → Bool → ℕ → Bool
fields_test v s w c =
    let word = course_status c v s w in
    (word % 1024 == c)
    && ((word / 1024 % 2 == bit (not s))
        && ((word / 2048 % 2 == bit w) && ((word / 4096 % 2 == bit v) && (word / 8192 == 1))))

-- Every course below 1024, in steps that stay small.
test_below : ℕ → (ℕ → Bool) → Bool
test_below zero p = true
test_below (suc n) p = p n && test_below n p

test_below_sound : (n : ℕ) (p : ℕ → Bool) (x : ℕ) → test_below n p ≡ true → x < n → p x ≡ true
unfolding test_below
test_below_sound zero p x h lt = absurd (omega arith)
test_below_sound (suc n) p x h lt = ground (arith, test_below_sound n p x)

fields_table : (v s w : Bool) → test_below 1024 (fields_test v s w) ≡ true
unfolding test_below fields_test course_status
fields_table true true true = refl
fields_table true true false = refl
fields_table true false true = refl
fields_table true false false = refl
fields_table false true true = refl
fields_table false true false = refl
fields_table false false true = refl
fields_table false false false = refl

course_status_small :
    (c : ℕ) (v s w : Bool) → fields_test v s w c ≡ true → AreFields (course_status c v s w) c v s w
unfolding fields_test
course_status_small c v s w e = ground arith

course_status_masked :
    (course : ℕ) (v s w : Bool) → course_status course v s w ≡ course_status (course % 1024) v s w
unfolding course_status
course_status_masked course v s w =
    let low : bit_and course 0x03ff ≡ bit_and (course % 1024) 0x03ff =
      omega (arith, bit_and_mask 10 course, bit_and_mask 10 (course % 1024)) in
    rw low refl

-- The word keeps the course modulo 1024 and each of the three flags apart, so a receiver reads the
-- course, the hemispheres and the validity back; the bit for a real-time fix is always set.
pub course_status_fields :
    (course : ℕ) (is_valid is_south is_west : Bool)
    → let w = course_status course is_valid is_south is_west in
      (w % 1024 ≡ course % 1024)
      × (w / 1024 % 2 ≡ (if not is_south then 1 else 0))
      × (w / 2048 % 2 ≡ (if is_west then 1 else 0))
      × (w / 4096 % 2 ≡ (if is_valid then 1 else 0))
      × (w / 8192 ≡ 1)
course_status_fields course v s w = rw (course_status_masked course v s w) (
    course_status_small (course % 1024) v s w (
      test_below_sound 1024 (fields_test v s w) (course % 1024) (fields_table v s w) (omega arith)))

-- A coordinate of at most 180 degrees fits the 32 bits, and is off by at most half a unit of
-- 1/1800000 degree: the unit is 10/18 of a millionth.
pub wire_coordinate_error :
    (micro : ℕ)
    → micro ≤ 180_000_000
    → (wire_coordinate micro < 2 ^ 32)
      × (wire_coordinate micro * 10 ≤ micro * 18 + 5)
      × (micro * 18 ≤ wire_coordinate micro * 10 + 5)
unfolding wire_coordinate
wire_coordinate_error micro h = omega arith
