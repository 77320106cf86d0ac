-- ===== src/Server/RoundTrip.antt =====
-- The values of SQLite through the conversions of internal/server and back.
use nsqlite.Prelude.{◌≡◌, refl, ap₂, Bool, true, List, [], ◌∷◌, map, All, arith}
use nsqlite.Db.Types.{Value, null, integer, real, text, blob, QueryResult}
use nsqlite.Server.Base64.{IsByte, decode_string-encode_to_string}
use nsqlite.Server.Convert.{converted, sqlite_value_from_vdl, sqlite_value_to_vdl, val}
use nsqlite.Server.Query.{query_result_from_db, unless_empty}
use nsqlite.Server.Answer.{
  JsonValue, json_null, json_integer, json_real, json_string, json_bytes, ResponseOptions,
  rqlite_value, rqlite_values, decode_blob_array,
}

-- A blob is a list of bytes.
abbrev pub IsValue : Value → Type 0
IsValue (blob bytes) = All IsByte bytes
IsValue _ = Unit

pub sqlite_value_from_vdl-sqlite_value_to_vdl :
    (v : Value) → IsValue v → sqlite_value_from_vdl (sqlite_value_to_vdl v) ≡ converted v
unfolding sqlite_value_from_vdl sqlite_value_to_vdl
sqlite_value_from_vdl-sqlite_value_to_vdl null h = refl
sqlite_value_from_vdl-sqlite_value_to_vdl (integer n) h = refl
sqlite_value_from_vdl-sqlite_value_to_vdl (real x) h = refl
sqlite_value_from_vdl-sqlite_value_to_vdl (text s) h = refl
sqlite_value_from_vdl-sqlite_value_to_vdl (blob bytes) h =
    ground (arith, decode_string-encode_to_string bytes h)

row_round_trip :
    (vs : List Value)
    → All IsValue vs
    → map sqlite_value_from_vdl (map sqlite_value_to_vdl vs) ≡ map converted vs
row_round_trip [] h = refl
row_round_trip (v ∷ vs) h =
    ap₂ (◌∷◌) (sqlite_value_from_vdl-sqlite_value_to_vdl v h.0) (row_round_trip vs h.1)

rows_round_trip :
    (rows : List (List Value))
    → All (All IsValue) rows
    → map (map sqlite_value_from_vdl) (map (map sqlite_value_to_vdl) rows)
      ≡ map (map converted) rows
rows_round_trip [] h = refl
rows_round_trip (vs ∷ rows) h = ap₂ (◌∷◌) (row_round_trip vs h.0) (rows_round_trip rows h.1)

answer_rows :
    (rows : List (List Value))
    → All (All IsValue) rows
    → map (map sqlite_value_from_vdl) (val (unless_empty (map (map sqlite_value_to_vdl)) rows))
      ≡ map (map converted) rows
answer_rows [] h = refl
answer_rows (vs ∷ rows) h = rows_round_trip (vs ∷ rows) h

-- The rows of an answer, read back by the conversion of the parameters, are the rows of the
-- database's result, for values whose blobs are lists of bytes.
pub query_result_from_db-rows :
    (r : QueryResult)
    → All (All IsValue) r.rows
    → map (map sqlite_value_from_vdl) (val (query_result_from_db r).rows)
      ≡ map (map converted) r.rows
unfolding query_result_from_db
query_result_from_db-rows r h = answer_rows r.rows h

-- A value as JSON, with its bytes.
abbrev pub json_of : Value → JsonValue
json_of null = json_null
json_of (integer n) = json_integer n
json_of (real x) = json_real x
json_of (text s) = json_string s
json_of (blob bytes) = json_bytes bytes

abbrev pub with_blob_array : Bool → ResponseOptions
with_blob_array associative = record { associative = associative; blob_array = true }

json_value :
    (b : Bool) (v : Value)
    → IsValue v
    → rqlite_value (sqlite_value_to_vdl v) (with_blob_array b) ≡ json_of v
unfolding rqlite_value sqlite_value_to_vdl decode_blob_array
json_value b null h = refl
json_value b (integer n) h = refl
json_value b (real x) h = refl
json_value b (text s) h = refl
json_value b (blob bytes) h = ground (arith, decode_string-encode_to_string bytes h)

json_row :
    (b : Bool) (vs : List Value)
    → All IsValue vs
    → map (λ v. rqlite_value v (with_blob_array b)) (map sqlite_value_to_vdl vs) ≡ map json_of vs
json_row b [] h = refl
json_row b (v ∷ vs) h = ap₂ (◌∷◌) (json_value b v h.0) (json_row b vs h.1)

-- With `blob_array`, the rqlite form of the rows of the database shows every value itself, its
-- bytes for a blob, for values whose blobs are lists of bytes.
pub rqlite_values-sqlite_value_to_vdl :
    (b : Bool) (rows : List (List Value))
    → All (All IsValue) rows
    → rqlite_values (map (map sqlite_value_to_vdl) rows) (with_blob_array b)
      ≡ map (map json_of) rows
unfolding rqlite_values
rqlite_values-sqlite_value_to_vdl b [] h = refl
rqlite_values-sqlite_value_to_vdl b (vs ∷ rows) h =
    ap₂ (◌∷◌) (json_row b vs h.0) (rqlite_values-sqlite_value_to_vdl b rows h.1)
