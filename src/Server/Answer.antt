-- ===== src/Server/Answer.antt =====
-- internal/server/rqlite.go: the shape of the answer to a rqlite request. The times are left out.
use nsqlite.Prelude.{
  put, or_else, ℕ, Bool, true, false, List, [], ◌∷◌, map, Option, none, some, Text, codes, is_empty,
  if◌then◌else◌,
}
use nsqlite.Server.Base64.{decode_string}
use nsqlite.Server.Convert.{
  SqliteValue, StorageClass, null_class, integer_class, real_class, text_class, blob_class, val,
}
use nsqlite.Server.Query.{VdlQueryResult, RequestError}

pub record ResponseOptions : Type 0 where
  pub associative : Bool
  pub blob_array : Bool

-- A value of the answer, as JSON.
pub data JsonValue : Type 0 where
  json_null : JsonValue
  json_integer json_real : ℕ → JsonValue
  json_string : Text → JsonValue
  json_bytes : List ℕ → JsonValue

-- The types of the columns, in their order or by the column's name.
pub data RqliteTypes : Type 0 where
  no_types : RqliteTypes
  in_order : List Text → RqliteTypes
  by_column : List (Text × Text) → RqliteTypes

pub record RqliteResult : Type 0 where
  pub last_insert_id : Option ℕ
  pub rows_affected : Option ℕ
  pub columns : List Text
  pub types : RqliteTypes
  pub values : List (List JsonValue)
  pub rows : List (List (Text × JsonValue))
  pub error : Option RequestError

-- A nil slice is `null` in JSON.
unfoldable pub decode_blob_array : Text → JsonValue
decode_blob_array encoded = elim (decode_string encoded) [
  | none ↦ json_null
  | some bytes ↦ json_bytes bytes
]

abbrev pub when_null : Option Bool → Option JsonValue
when_null (some true) = some json_null
when_null _ = none

abbrev pub field_value {ℓ} : {A : Type ℓ} → (A → JsonValue) → Option A → Option JsonValue
field_value f none = none
field_value f (some a) = some (f a)

abbrev pub blob_value : Bool → Text → JsonValue
blob_value true s = decode_blob_array s
blob_value false s = json_string s

abbrev pub or_null : Option JsonValue → JsonValue
or_null none = json_null
or_null (some v) = v

-- The first field that is set decides.
unfoldable pub rqlite_value : SqliteValue → ResponseOptions → JsonValue
rqlite_value v options = or_null (
    or_else (when_null v.null) (
      or_else (field_value json_integer v.integer) (
        or_else (field_value json_real v.real) (
          or_else (field_value json_string v.text)
            (field_value (blob_value options.blob_array) v.blob)))))

abbrev pub class_name : StorageClass → Text
class_name null_class = codes "null"
class_name integer_class = codes "integer"
class_name real_class = codes "real"
class_name text_class = codes "text"
class_name blob_class = codes "blob"

unfoldable pub rqlite_types : List StorageClass → List Text
rqlite_types = map class_name

-- The entries of the columns from the left, the later of two equal names winning.
abbrev pub put_types : List Text → List StorageClass → List (Text × Text) → List (Text × Text)
put_types [] ts m = m
put_types (c ∷ cs) [] m = put_types cs [] (put c [] m)
put_types (c ∷ cs) (t ∷ ts) m = put_types cs ts (put c (class_name t) m)

unfoldable pub rqlite_associative_types : List Text → List StorageClass → List (Text × Text)
rqlite_associative_types columns types = put_types columns types []

unfoldable pub rqlite_values : List (List SqliteValue) → ResponseOptions → List (List JsonValue)
rqlite_values rows options = map (map (λ v. rqlite_value v options)) rows

abbrev pub put_values :
    ResponseOptions
    → List Text
    → List SqliteValue
    → List (Text × JsonValue)
    → List (Text × JsonValue)
put_values options [] vs m = m
put_values options (c ∷ cs) [] m = m
put_values options (c ∷ cs) (v ∷ vs) m = put_values options cs vs (put c (rqlite_value v options) m)

unfoldable pub rqlite_associative_rows :
    List Text → List (List SqliteValue) → ResponseOptions → List (List (Text × JsonValue))
rqlite_associative_rows columns rows options = map (λ row. put_values options columns row []) rows

abbrev pub no_entries : RqliteResult
no_entries = record {
  last_insert_id = none;
  rows_affected = none;
  columns = [];
  types = no_types;
  values = [];
  rows = [];
  error = none;
}

abbrev pub with_rows : VdlQueryResult → ResponseOptions → RqliteResult → RqliteResult
with_rows result options converted =
    if is_empty (val result.columns)
    then converted
    else if options.associative
    then record converted {
      types = by_column (rqlite_associative_types (val result.columns) (val result.types));
      rows = rqlite_associative_rows (val result.columns) (val result.rows) options;
    }
    else record converted {
      columns = val result.columns;
      types = in_order (rqlite_types (val result.types));
      values = rqlite_values (val result.rows) options;
    }

unfoldable pub rqlite_result_from_vdl : VdlQueryResult → ResponseOptions → RqliteResult
rqlite_result_from_vdl result options = elim result.error [
  | some x ↦ record no_entries { error = some x }
  | none ↦ with_rows result options (record no_entries {
    last_insert_id = result.last_insert_id;
    rows_affected = result.rows_affected;
  })
]
