-- ===== src/Server/Convert.antt =====
-- internal/server/query_convert.go: the values of a request and of its answer, and the values of
-- SQLite. The types of the requests are those of internal/vdl/types.go; an optional field is an
-- `Option`. The integers and floats of other widths that `sqliteValueToVDL` accepts are widened by
-- the driver's types here: an integer is its 64-bit pattern, a float64 its bits.
use nsqlite.Prelude.{
  ℕ, suc, Bool, true, false, ◌||◌, List, [], ◌∷◌, map, Option, none, some, Text, codes, text_eq,
  contains, trim_space, to_upper, is_empty, ◌==◌, if◌then◌else◌,
}
use nsqlite.Auth.Tokens
use nsqlite.Authorizer.Defs
use nsqlite.Db.Types.{Value, QueryParam, QueryType, read, write, begin, commit, rollback, unknown}
use nsqlite.Server.Base64.{encode_to_string, decode_string}

-- `vdl.SqliteValue`
pub record SqliteValue : Type 0 where
  pub null : Option Bool
  pub integer : Option ℕ
  pub real : Option ℕ
  pub text : Option Text
  pub blob : Option Text

-- `vdl.QueryParam`
pub record VdlQueryParam : Type 0 where
  pub name : Option Text
  pub value : SqliteValue

pub data StorageClass : Type 0 where
  null_class integer_class real_class text_class blob_class : StorageClass

pub data ResultType : Type 0 where
  read_result write_result begin_result commit_result rollback_result error_result : ResultType

pub data ConvertError : Type 0 where
  decode_blob_parameter one_field_must_be_set : ConvertError

pub data Converted {ℓ} (A : Type ℓ) : Type ℓ where
  converted : A → Converted A
  rejected : ConvertError → Converted A

unfoldable pub authorizer_role_for_auth_role : Tokens.AuthRole → Defs.AuthorizerRole
authorizer_role_for_auth_role Tokens.read_write = Defs.read_write
authorizer_role_for_auth_role Tokens.read_only = Defs.read_only
authorizer_role_for_auth_role Tokens.admin = Defs.admin

-- The count of set fields and the value of the last one of them.
abbrev pub count_field {ℓ} : {A : Type ℓ} → (A → Value) → Option A → ℕ × Value → ℕ × Value
count_field f none (n, v) = (n, v)
count_field f (some a) (n, v) = (suc n, f a)

abbrev pub count_null : Option Bool → ℕ × Value
count_null (some true) = (1, Value.null)
count_null _ = (0, Value.null)

abbrev pub only_one : ℕ × Value → Converted Value
only_one (n, v) = if n == 1 then converted v else rejected one_field_must_be_set

-- The blob, when it is set, by its bytes; `none` if it is not base64.
abbrev pub decode_field : Option Text → Option (Option (List ℕ))
decode_field none = some none
decode_field (some s) = elim (decode_string s) [ none ↦ none | some bytes ↦ some (some bytes) ]

unfoldable pub sqlite_value_from_vdl : SqliteValue → Converted Value
sqlite_value_from_vdl v = elim (decode_field v.blob) [
  | none ↦ rejected decode_blob_parameter
  | some bytes ↦ only_one (
      count_field Value.blob bytes (
        count_field Value.text v.text (
          count_field Value.real v.real (count_field Value.integer v.integer (count_null v.null)))))
]

abbrev pub no_fields : SqliteValue
no_fields = record { null = none; integer = none; real = none; text = none; blob = none }

unfoldable pub sqlite_value_to_vdl : Value → SqliteValue
sqlite_value_to_vdl Value.null = record no_fields { null = some true }
sqlite_value_to_vdl (Value.integer n) = record no_fields { integer = some n }
sqlite_value_to_vdl (Value.real x) = record no_fields { real = some x }
sqlite_value_to_vdl (Value.text s) = record no_fields { text = some s }
sqlite_value_to_vdl (Value.blob bytes) = record no_fields { blob = some (encode_to_string bytes) }

-- `vdl.Val` of a string and of a list
abbrev pub val : {A : Type 0} → Option (List A) → List A
val none = []
val (some a) = a

abbrev pub add_param :
    Text → Converted Value → Converted (List QueryParam) → Converted (List QueryParam)
add_param name (rejected x) rest = rejected x
add_param name (converted v) (rejected x) = rejected x
add_param name (converted v) (converted ps) = converted (record { name = name; value = v } ∷ ps)

unfoldable pub params_from_vdl : List VdlQueryParam → Converted (List QueryParam)
params_from_vdl [] = converted []
params_from_vdl (p ∷ ps) =
    add_param (val p.name) (sqlite_value_from_vdl p.value) (params_from_vdl ps)

unfoldable pub sqlite_params_from_vdl : Option (List VdlQueryParam) → Converted (List QueryParam)
sqlite_params_from_vdl params = params_from_vdl (val params)

unfoldable pub query_result_type_from_db : QueryType → ResultType
query_result_type_from_db read = read_result
query_result_type_from_db write = write_result
query_result_type_from_db begin = begin_result
query_result_type_from_db commit = commit_result
query_result_type_from_db rollback = rollback_result
query_result_type_from_db unknown = error_result

abbrev pub contains_any : Text → List Text → Bool
contains_any s [] = false
contains_any s (t ∷ ts) = contains s t || contains_any s ts

abbrev pub class_of_upper : Text → StorageClass
class_of_upper upper =
    if text_eq upper (codes "NULL")
    then null_class
    else if text_eq upper (codes "INTEGER")
    then integer_class
    else if text_eq upper (codes "REAL")
    then real_class
    else if text_eq upper (codes "TEXT")
    then text_class
    else if text_eq upper (codes "BLOB")
    then blob_class
    else if contains upper (codes "INT")
    then integer_class
    else if contains_any upper (map codes ("CHAR" ∷ "CLOB" ∷ "TEXT" ∷ "DATE" ∷ "TIME" ∷ []))
    then text_class
    else if contains upper (codes "BLOB") || is_empty upper
    then blob_class
    else if contains_any upper
        (map codes ("REAL" ∷ "FLOA" ∷ "DOUB" ∷ "NUMERIC" ∷ "DECIMAL" ∷ "BOOLEAN" ∷ []))
    then real_class
    else text_class

unfoldable pub sqlite_storage_class_from_string : Text → StorageClass
sqlite_storage_class_from_string value_type = class_of_upper (to_upper (trim_space value_type))
