-- ===== src/Server/Json.antt =====
-- JSON values as encoding/json hands them to internal/server/rqlite.go, which reads them with
-- `UseNumber`.
use nsqlite.Prelude.{
  ℕ, ◌-◌, ◌%◌, ◌^◌, Bool, true, false, List, [], ◌∷◌, Option, none, some, Text, leb, ltb,
  if◌then◌else◌,
}

-- A literal without a fraction and an exponent, by its sign and its digits, or another literal;
-- each with its float64, where it has one.
pub data Number : Type 0 where
  whole : Bool → ℕ → Option ℕ → Number
  decimal : Option ℕ → Number

mutual
  pub data Json : Type 0 where
    json_null : Json
    json_bool : Bool → Json
    json_number : Number → Json
    json_string : Text → Json
    json_array : Items → Json
    json_object : Fields → Json

  pub data Items : Type 0 where
    no_items : Items
    item : Json → Items → Items

  pub data Fields : Type 0 where
    end_fields : Fields
    field : Text → Json → Fields → Fields

abbrev pub item_list : Items → List Json
item_list no_items = []
item_list (item j js) = j ∷ item_list js

abbrev pub items_of : List Json → Items
items_of [] = no_items
items_of (j ∷ js) = item j (items_of js)

abbrev pub field_list : Fields → List (Text × Json)
field_list end_fields = []
field_list (field name j fs) = (name, j) ∷ field_list fs

-- Number.Int64, as a 64-bit pattern
unfoldable pub number_int64 : Number → Option ℕ
number_int64 (whole false n float) = if ltb n (2 ^ 63) then some n else none
number_int64 (whole true n float) = if leb n (2 ^ 63) then some ((2 ^ 64 - n) % 2 ^ 64) else none
number_int64 (decimal float) = none

-- Number.Float64
abbrev pub number_float64 : Number → Option ℕ
number_float64 (whole negative n float) = float
number_float64 (decimal float) = float

-- Unmarshal of an element of a `[]byte`: a null leaves the zero.
abbrev pub json_byte : Json → Option ℕ
json_byte json_null = some 0
json_byte (json_number (whole false n float)) = if ltb n 256 then some n else none
json_byte _ = none

abbrev pub cons_byte : Option ℕ → Option (List ℕ) → Option (List ℕ)
cons_byte (some b) (some bs) = some (b ∷ bs)
cons_byte _ _ = none

-- Unmarshal of an array into a `[]byte`
unfoldable pub json_bytes_of : List Json → Option (List ℕ)
json_bytes_of [] = some []
json_bytes_of (j ∷ js) = cons_byte (json_byte j) (json_bytes_of js)

-- Unmarshal into a string, which stays empty on null
abbrev pub json_text : Json → Option Text
json_text json_null = some []
json_text (json_string s) = some s
json_text _ = none

-- Decode into a `[]RawMessage`, which stays nil on null
abbrev pub json_items : Json → Option (List Json)
json_items json_null = some []
json_items (json_array js) = some (item_list js)
json_items _ = none
