-- ===== src/Server/Request.antt =====
-- internal/server/rqlite.go: the statements of a rqlite request. The decoder of JSON is an argument.
use nsqlite.Prelude.{
  ℕ, ◌+◌, ◌-◌, ◌*◌, ◌&&◌, ◌||◌, Bool, true, List, [], ◌∷◌, map, Option, none, some, Text, codes,
  text_eq, trim_space, to_lower, is_empty, leb, ◌==◌, if◌then◌else◌, put,
}
use nsqlite.Server.Base64.{encode_to_string}
use nsqlite.Server.Convert.{SqliteValue, VdlQueryParam, no_fields}
use nsqlite.Server.Query.{VdlQuery, plain}
use nsqlite.Server.Json.{
  Number, Json, json_null, json_bool, json_number, json_string, json_array, json_object, item_list,
  field_list, number_int64, number_float64, json_bytes_of, json_text, json_items,
}

pub data RequestFault : Type 0 where
  missing_q_query_parameter request_body_is_required decode_json_statements : RequestFault
  decode_parameterized_statement statement_array_must_not_be_empty : RequestFault
  statement_array_must_start_with_sql decode_numeric_parameter : RequestFault
  unsupported_parameter_value : RequestFault

pub data Parsed {ℓ} (A : Type ℓ) : Type ℓ where
  parsed : A → Parsed A
  malformed : RequestFault → Parsed A

abbrev pub cons_parsed {ℓ} : {A : Type ℓ} → Parsed A → Parsed (List A) → Parsed (List A)
cons_parsed (malformed x) rest = malformed x
cons_parsed (parsed a) (malformed x) = malformed x
cons_parsed (parsed a) (parsed rest) = parsed (a ∷ rest)

-- hex.DecodeString
unfoldable pub hex_value : ℕ → Option ℕ
hex_value c =
    if leb 48 c && leb c 57
    then some (c - 48)
    else if leb 97 c && leb c 102
    then some (c - 87)
    else if leb 65 c && leb c 70
    then some (c - 55)
    else none

abbrev pub cons_hex : Option ℕ → Option ℕ → Option (List ℕ) → Option (List ℕ)
cons_hex (some v) (some w) (some rest) = some ((v * 16 + w) ∷ rest)
cons_hex _ _ _ = none

unfoldable pub hex_decode_string : Text → Option (List ℕ)
hex_decode_string [] = some []
hex_decode_string (c ∷ []) = none
hex_decode_string (c ∷ d ∷ s) = cons_hex (hex_value c) (hex_value d) (hex_decode_string s)

-- What stands before the last character, which must be a quote.
abbrev pub keep_char : ℕ → Option Text → Option Text
keep_char c none = none
keep_char c (some s) = some (c ∷ s)

abbrev pub before_quote : Text → Option Text
before_quote [] = none
before_quote (c ∷ []) = if c == 39 then some [] else none
before_quote (c ∷ s) = keep_char c (before_quote s)

-- What stands between the quotes of X'...'
unfoldable pub quoted_hex : Text → Option Text
quoted_hex (c ∷ q ∷ s) =
    let rest = before_quote s in if (c == b'x' || c == b'X') && q == 39 then rest else none
quoted_hex _ = none

unfoldable pub rqlite_hex_blob_string : Text → Option Text
rqlite_hex_blob_string value = elim (quoted_hex (trim_space value)) [
  | none ↦ none
  | some digits ↦ elim (hex_decode_string digits) [
    | none ↦ none
    | some bytes ↦ some (encode_to_string bytes)
  ]
]

abbrev pub text_value : Text → Option Text → SqliteValue
text_value s none = record no_fields { text = some s }
text_value s (some blob) = record no_fields { blob = some blob }

abbrev pub real_value : Option ℕ → Parsed SqliteValue
real_value none = malformed decode_numeric_parameter
real_value (some x) = parsed (record no_fields { real = some x })

abbrev pub number_value : Number → Option ℕ → Parsed SqliteValue
number_value n none = real_value (number_float64 n)
number_value n (some i) = parsed (record no_fields { integer = some i })

abbrev pub blob_or_fault : Option (List ℕ) → Parsed SqliteValue
blob_or_fault none = malformed unsupported_parameter_value
blob_or_fault (some bytes) = parsed (record no_fields { blob = some (encode_to_string bytes) })

unfoldable pub rqlite_value_from_json : Json → Parsed SqliteValue
rqlite_value_from_json json_null = parsed (record no_fields { null = some true })
rqlite_value_from_json (json_array js) = blob_or_fault (json_bytes_of (item_list js))
rqlite_value_from_json (json_bool b) =
    parsed (record no_fields { integer = some (if b then 1 else 0) })
rqlite_value_from_json (json_number n) = number_value n (number_int64 n)
rqlite_value_from_json (json_string s) = parsed (text_value s (rqlite_hex_blob_string s))
rqlite_value_from_json (json_object fs) = malformed unsupported_parameter_value

abbrev pub param_of : Option Text → Parsed SqliteValue → Parsed VdlQueryParam
param_of name (malformed x) = malformed x
param_of name (parsed v) = parsed (record { name = name; value = v })

unfoldable pub positional_params : List Json → Parsed (List VdlQueryParam)
positional_params [] = parsed []
positional_params (j ∷ js) =
    cons_parsed (param_of none (rqlite_value_from_json j)) (positional_params js)

-- The fields of an object as a Go map: the later of two equal names wins. Go leaves the order of
-- the parameters open; here it is that of the map's entries.
abbrev pub put_fields : List (Text × Json) → List (Text × Json) → List (Text × Json)
put_fields [] m = m
put_fields ((name, j) ∷ fields) m = put_fields fields (put name j m)

unfoldable pub named_params : List (Text × Json) → Parsed (List VdlQueryParam)
named_params [] = parsed []
named_params ((name, j) ∷ fields) =
    cons_parsed (param_of (some name) (rqlite_value_from_json j)) (named_params fields)

abbrev pub some_params : Parsed (List VdlQueryParam) → Parsed (Option (List VdlQueryParam))
some_params (malformed x) = malformed x
some_params (parsed ps) = parsed (some ps)

unfoldable pub rqlite_params_from_json : List Json → Parsed (Option (List VdlQueryParam))
rqlite_params_from_json [] = parsed none
rqlite_params_from_json (json_object fs ∷ []) =
    some_params (named_params (put_fields (field_list fs) []))
rqlite_params_from_json js = some_params (positional_params js)

abbrev pub with_params : Text → Parsed (Option (List VdlQueryParam)) → Parsed VdlQuery
with_params sql (malformed x) = malformed x
with_params sql (parsed params) = parsed (record (plain sql) { params = params })

abbrev pub parameterized : List Json → Parsed VdlQuery
parameterized [] = malformed statement_array_must_not_be_empty
parameterized (j ∷ js) = elim (json_text j) [
  | none ↦ malformed statement_array_must_start_with_sql
  | some sql ↦
      let query = with_params sql (rqlite_params_from_json js) in
      if is_empty (trim_space sql) then malformed statement_array_must_start_with_sql else query
]

unfoldable pub rqlite_query_from_json_statement : Json → Parsed VdlQuery
rqlite_query_from_json_statement statement = elim (json_text statement) [
  | some sql ↦ parsed (plain sql)
  | none ↦ elim (json_items statement) [
    | none ↦ malformed decode_parameterized_statement
    | some parts ↦ parameterized parts
  ]
]

unfoldable pub queries_of : List Json → Parsed (List VdlQuery)
queries_of [] = parsed []
queries_of (j ∷ js) = cons_parsed (rqlite_query_from_json_statement j) (queries_of js)

-- What the code reads of a request; the body has been read in full.
pub record RqliteRequest : Type 0 where
  pub is_get : Bool
  pub q_values : List Text
  pub content_type : Text
  pub body : Text

-- `strings.Split(s, ";")[0]`
abbrev pub before_semicolon : Text → Text
before_semicolon [] = []
before_semicolon (c ∷ s) = let rest = before_semicolon s in if c == b';' then [] else c ∷ rest

module _ (decode : Text → Option Json) where
  unfoldable pub rqlite_queries_from_json : Text → Parsed (List VdlQuery)
  rqlite_queries_from_json body = elim (decode body) [
    | none ↦ malformed decode_json_statements
    | some j ↦ elim (json_items j) [
      | none ↦ malformed decode_json_statements
      | some statements ↦ queries_of statements
    ]
  ]

  abbrev pub queries_of_body : Text → Text → Parsed (List VdlQuery)
  queries_of_body content_type body =
      if is_empty body
      then malformed request_body_is_required
      else if text_eq (to_lower (trim_space (before_semicolon content_type))) (codes "text/plain")
      then parsed (plain body ∷ [])
      else rqlite_queries_from_json body

  abbrev pub queries_of_values : List Text → Parsed (List VdlQuery)
  queries_of_values [] = malformed missing_q_query_parameter
  queries_of_values (v ∷ vs) = parsed (map plain (v ∷ vs))

  unfoldable pub rqlite_queries_from_request : RqliteRequest → Parsed (List VdlQuery)
  rqlite_queries_from_request r =
      if r.is_get
      then queries_of_values r.q_values
      else queries_of_body r.content_type (trim_space r.body)
