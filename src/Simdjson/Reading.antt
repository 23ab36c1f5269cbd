-- ===== src/Simdjson/Reading.antt =====
-- What is documented of simdjson on documents that are the text of a JSON value.
use text.Mathlib.Text.{◌==◌ as str_eq}
use kraken_data_recorder.Base.{
  ℕ, ◌<◌, ◌^◌, ℤ, pos, negsuc, List, [], ◌∷◌, String, Option, none, some, if◌then◌else◌, Result, ok,
  ◌≡◌,
}
use kraken_data_recorder.Requests.{
  Json, string, number, integer, array, object, Items, no_items, item, Fields, no_fields, field,
}
use kraken_data_recorder.Simdjson.{Simdjson}

unfoldable pub member : String → Fields → Option Json
member key no_fields = none
member key (field name value fields) = if str_eq name key then some value else member key fields

abbrev pub IsInt64 : ℤ → Type 0
IsInt64 (pos n) = n < 2 ^ 63
IsInt64 (negsuc n) = n < 2 ^ 63

-- The values of an array, each of which can be used.
abbrev pub values_of : {V : Type 0} → (Json → V) → Items → List (Result V)
values_of value_of no_items = []
values_of value_of (item value items) = ok (value_of value) ∷ values_of value_of items

-- How simdjson reads the documents that are the text of a JSON value: `value_of` is the parsed text.
pub record Reading (json : Simdjson) : Type 0 where
  pub value_of : Json → json.Value
  pub find_member :
      (fields : Fields) (key : String) (value : Json)
      → member key fields ≡ some value
      → json.find_field (value_of (object fields)) key ≡ ok (value_of value)
  pub read_array :
      (items : Items) → json.elements (value_of (array items)) ≡ ok (values_of value_of items)
  pub read_object :
      (fields : Fields) → json.get_object (value_of (object fields)) ≡ ok (value_of (object fields))
  pub read_string : (text : String) → json.get_string (value_of (string text)) ≡ ok text
  pub read_number : (n : ℕ) → n < 2 ^ 64 → json.get_uint64 (value_of (number n)) ≡ ok n
  pub read_integer : (i : ℤ) → IsInt64 i → json.get_int64 (value_of (integer i)) ≡ ok i
