-- ===== src/Server/Parameters.antt =====
-- The parameters of a rqlite statement on their way to the database.
use nsqlite.Prelude.{
  ℕ, ◌-◌, ◌^◌, ◌<◌, ◌≡◌, refl, ap, true, false, List, [], ◌∷◌, map, Option, none, some, Text,
  is_empty, trim_space, All, arith, ltb, if◌then◌else◌,
}
use nsqlite.Db.Types.{Value, null, integer, real, text, blob, QueryParam}
use nsqlite.Server.Base64.{IsByte}
use nsqlite.Server.Convert.{
  VdlQueryParam, converted, sqlite_value_to_vdl, params_from_vdl, sqlite_params_from_vdl,
}
use nsqlite.Server.Query.{VdlQuery, plain}
use nsqlite.Server.RoundTrip.{IsValue, sqlite_value_from_vdl-sqlite_value_to_vdl}
use nsqlite.Server.Json.{
  Number, whole, decimal, Json, json_null, json_number, json_string, json_array, item_list,
  items_of, number_int64, json_bytes_of,
}
use nsqlite.Server.Request.{
  parsed, rqlite_hex_blob_string, rqlite_value_from_json, positional_params,
  rqlite_params_from_json, some_params, rqlite_query_from_json_statement,
}

-- A value that JSON can carry as itself: an integer is a 64-bit pattern, a blob a list of bytes,
-- and a text is not of the form X'...' that stands for a blob.
abbrev pub IsParameter : Value → Type 0
IsParameter (integer n) = n < 2 ^ 64
IsParameter (text s) = rqlite_hex_blob_string s ≡ none
IsParameter (blob bytes) = All IsByte bytes
IsParameter _ = Unit

abbrev pub nameless : Value → QueryParam
nameless v = record { name = []; value = v }

abbrev to_param : Value → VdlQueryParam
to_param v = record { name = none; value = sqlite_value_to_vdl v }

is_value : (v : Value) → IsParameter v → IsValue v
is_value null h = tt
is_value (integer n) h = tt
is_value (real x) h = tt
is_value (text s) h = tt
is_value (blob bytes) h = h

params_from_vdl-to_param :
    (vs : List Value)
    → All IsParameter vs
    → params_from_vdl (map to_param vs) ≡ converted (map nameless vs)
unfolding params_from_vdl
params_from_vdl-to_param [] h = refl
params_from_vdl-to_param (v ∷ vs) h = ground (
  arith,
  params_from_vdl-to_param vs h.1,
  sqlite_value_from_vdl-sqlite_value_to_vdl v (is_value v h.0),
)

item_list-items_of : (js : List Json) → item_list (items_of js) ≡ js
item_list-items_of [] = refl
item_list-items_of (j ∷ js) = ap (◌∷◌ j) (item_list-items_of js)

-- `float` gives the float64 that goes with a literal of an integer.
module _ (float : ℕ → Option ℕ) where
  abbrev pub number_of : ℕ → Number
  number_of n =
      if ltb n (2 ^ 63) then whole false n (float n) else whole true (2 ^ 64 - n) (float n)

  abbrev pub byte_of : ℕ → Json
  byte_of b = json_number (whole false b (float b))

  abbrev pub to_json : Value → Json
  to_json null = json_null
  to_json (integer n) = json_number (number_of n)
  to_json (real x) = json_number (decimal (some x))
  to_json (text s) = json_string s
  to_json (blob bytes) = json_array (items_of (map byte_of bytes))

  bytes-byte_of :
      (bs : List ℕ)
      → All IsByte bs
      → json_bytes_of (item_list (items_of (map byte_of bs))) ≡ some bs
  unfolding json_bytes_of
  bytes-byte_of [] h = refl
  bytes-byte_of (b ∷ bs) h = ground (arith, bytes-byte_of bs h.1)

  value-to_json :
      (v : Value)
      → IsParameter v
      → rqlite_value_from_json (to_json v) ≡ parsed (sqlite_value_to_vdl v)
  unfolding rqlite_value_from_json number_int64 sqlite_value_to_vdl
  value-to_json null h = refl
  value-to_json (integer n) h = ground arith
  value-to_json (real x) h = refl
  value-to_json (text s) h = ground arith
  value-to_json (blob bytes) h = ground (arith, bytes-byte_of bytes h)

  positional-to_json :
      (vs : List Value)
      → All IsParameter vs
      → positional_params (map to_json vs) ≡ parsed (map to_param vs)
  unfolding positional_params
  positional-to_json [] h = refl
  positional-to_json (v ∷ vs) h = ground (arith, positional-to_json vs h.1, value-to_json v h.0)

  params-to_json :
      (v : Value) (vs : List Value)
      → rqlite_params_from_json (to_json v ∷ map to_json vs)
        ≡ some_params (positional_params (to_json v ∷ map to_json vs))
  unfolding rqlite_params_from_json
  params-to_json null vs = refl
  params-to_json (integer n) vs = refl
  params-to_json (real x) vs = refl
  params-to_json (text s) vs = refl
  params-to_json (blob bytes) vs = refl

  abbrev pub statement_of : Text → List Value → Json
  statement_of sql vs = json_array (items_of (json_string sql ∷ map to_json vs))

  -- A rqlite statement with a SQL text that is not blank and at least one positional value becomes
  -- a query of that text whose parameters the database binds as just these values in their order,
  -- for integers of 64 bits, blobs of bytes as arrays, and texts that are not of the form X'...'.
  pub params_reach_database :
      (sql : Text) (v : Value) (vs : List Value)
      → is_empty (trim_space sql) ≡ false
      → All IsParameter (v ∷ vs)
      → (q : VdlQuery) × (rqlite_query_from_json_statement (statement_of sql (v ∷ vs)) ≡ parsed q)
        × (q.query ≡ sql)
        × (sqlite_params_from_vdl q.params ≡ converted (map nameless (v ∷ vs)))
  unfolding rqlite_query_from_json_statement sqlite_params_from_vdl
  params_reach_database sql v vs o h = (
    record (plain sql) { params = some (map to_param (v ∷ vs)) },
    ground (
      arith,
      item_list-items_of (to_json v ∷ map to_json vs),
      positional-to_json (v ∷ vs) h,
      params-to_json v vs,
    ),
    refl,
    params_from_vdl-to_param (v ∷ vs) h,
  )
