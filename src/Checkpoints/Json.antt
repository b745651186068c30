-- ===== src/Checkpoints/Json.antt =====
-- src/main/road-checkpoint-store.js: the values that a checkpoint may hold. A value is a tree: what the
-- code says of repeated objects and of functions is not met here.
use gps_device_virtual_farm.Prelude.{ℕ, suc, Bool, true, false, not, ◌&&◌, ◌||◌, List, [], ◌∷◌, leb}
use gps_device_virtual_farm.Prelude.Texts.{same_text}

mutual
  pub data Value : Type 0 where
    null not_finite : Value
    text : List ℕ → Value
    flag : Bool → Value
    number : ℕ → Value
    array : Items → Value
    object : Fields → Value

  pub data Items : Type 0 where
    nil : Items
    cons : Value → Items → Items

  pub data Fields : Type 0 where
    end : Fields
    field : List ℕ → Value → Fields → Fields

-- A record of a vehicle: its IMEI and its other fields.
pub record VehicleState : Type 0 where
  pub imei : List ℕ
  pub fields : Fields

-- `'__proto__'`, `'constructor'` and `'prototype'`
abbrev proto_key : List ℕ
proto_key = 95 ∷ 95 ∷ 112 ∷ 114 ∷ 111 ∷ 116 ∷ 111 ∷ 95 ∷ 95 ∷ []

abbrev constructor_key : List ℕ
constructor_key = 99 ∷ 111 ∷ 110 ∷ 115 ∷ 116 ∷ 114 ∷ 117 ∷ 99 ∷ 116 ∷ 111 ∷ 114 ∷ []

abbrev prototype_key : List ℕ
prototype_key = 112 ∷ 114 ∷ 111 ∷ 116 ∷ 111 ∷ 116 ∷ 121 ∷ 112 ∷ 101 ∷ []

unfoldable pub is_unsafe_key : List ℕ → Bool
is_unsafe_key key =
    same_text key proto_key || (same_text key constructor_key || same_text key prototype_key)

-- `assertJsonSafe(value, depth, seen)`: true when it does not throw.
unfoldable mutual
  pub assert_json_safe : ℕ → Value → Bool
  assert_json_safe depth null = leb depth 16
  assert_json_safe depth not_finite = false
  assert_json_safe depth (text t) = leb depth 16
  assert_json_safe depth (flag b) = leb depth 16
  assert_json_safe depth (number n) = leb depth 16
  assert_json_safe depth (array items) = leb depth 16 && assert_items_safe (suc depth) items
  assert_json_safe depth (object fields) = leb depth 16 && assert_fields_safe (suc depth) fields

  pub assert_items_safe : ℕ → Items → Bool
  assert_items_safe depth nil = true
  assert_items_safe depth (cons v items) = assert_json_safe depth v && assert_items_safe depth items

  pub assert_fields_safe : ℕ → Fields → Bool
  assert_fields_safe depth end = true
  assert_fields_safe depth (field key v fields) =
      not (is_unsafe_key key) && (assert_json_safe depth v && assert_fields_safe depth fields)

-- The array of states, whose records lie at the given depth.
unfoldable pub are_safe : ℕ → List VehicleState → Bool
are_safe depth [] = true
are_safe depth (s ∷ ss) = assert_fields_safe (suc depth) s.fields && are_safe depth ss
