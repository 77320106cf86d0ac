-- ===== src/Authorizer/Defs.antt =====
-- The definitions of the authorizer: actions, allow lists and the callback.
use nsqlite.Prelude.{
  ℕ, Bool, true, false, List, [], ◌∷◌, Option, none, some, Text, codes, text_eq, has_prefix, any,
  if◌then◌else◌,
}

pub data AuthorizerRole : Type 0 where
  admin read_write read_only : AuthorizerRole

-- The action codes that the callback names; any other code is `other`.
pub data Action : Type 0 where
  select read recursive function pragma transaction savepoint insert update delete : Action
  other : ℕ → Action

pub data Verdict : Type 0 where
  ok deny : Verdict

-- `strncmp(name, "sqlite_", 7) == 0`
unfoldable pub is_internal_table : Option Text → Bool
unfolding has_prefix
is_internal_table none = false
is_internal_table (some name) = has_prefix name (codes "sqlite_")

abbrev pub allowed_function_names : List Text
allowed_function_names =
    codes "abs"
    ∷ codes "avg"
    ∷ codes "changes"
    ∷ codes "char"
    ∷ codes "coalesce"
    ∷ codes "concat"
    ∷ codes "concat_ws"
    ∷ codes "count"
    ∷ codes "date"
    ∷ codes "datetime"
    ∷ codes "format"
    ∷ codes "glob"
    ∷ codes "group_concat"
    ∷ codes "hex"
    ∷ codes "if"
    ∷ codes "ifnull"
    ∷ codes "iif"
    ∷ codes "instr"
    ∷ codes "json"
    ∷ codes "json_array"
    ∷ codes "json_array_insert"
    ∷ codes "json_array_length"
    ∷ codes "json_each"
    ∷ codes "json_error_position"
    ∷ codes "json_extract"
    ∷ codes "json_group_array"
    ∷ codes "json_group_object"
    ∷ codes "json_insert"
    ∷ codes "json_object"
    ∷ codes "json_patch"
    ∷ codes "json_pretty"
    ∷ codes "json_quote"
    ∷ codes "json_remove"
    ∷ codes "json_replace"
    ∷ codes "json_set"
    ∷ codes "json_tree"
    ∷ codes "json_type"
    ∷ codes "json_valid"
    ∷ codes "jsonb"
    ∷ codes "jsonb_array"
    ∷ codes "jsonb_array_insert"
    ∷ codes "jsonb_each"
    ∷ codes "jsonb_extract"
    ∷ codes "jsonb_group_array"
    ∷ codes "jsonb_group_object"
    ∷ codes "jsonb_insert"
    ∷ codes "jsonb_object"
    ∷ codes "jsonb_patch"
    ∷ codes "jsonb_remove"
    ∷ codes "jsonb_replace"
    ∷ codes "jsonb_set"
    ∷ codes "jsonb_tree"
    ∷ codes "julianday"
    ∷ codes "last_insert_rowid"
    ∷ codes "length"
    ∷ codes "like"
    ∷ codes "likelihood"
    ∷ codes "likely"
    ∷ codes "lower"
    ∷ codes "ltrim"
    ∷ codes "max"
    ∷ codes "min"
    ∷ codes "nullif"
    ∷ codes "octet_length"
    ∷ codes "printf"
    ∷ codes "quote"
    ∷ codes "random"
    ∷ codes "randomblob"
    ∷ codes "replace"
    ∷ codes "round"
    ∷ codes "rtrim"
    ∷ codes "sign"
    ∷ codes "sqlite_compileoption_get"
    ∷ codes "sqlite_compileoption_used"
    ∷ codes "sqlite_source_id"
    ∷ codes "sqlite_version"
    ∷ codes "strftime"
    ∷ codes "substr"
    ∷ codes "substring"
    ∷ codes "sum"
    ∷ codes "time"
    ∷ codes "timediff"
    ∷ codes "total"
    ∷ codes "total_changes"
    ∷ codes "trim"
    ∷ codes "typeof"
    ∷ codes "unhex"
    ∷ codes "unicode"
    ∷ codes "unistr"
    ∷ codes "unistr_quote"
    ∷ codes "unixepoch"
    ∷ codes "unlikely"
    ∷ codes "upper"
    ∷ codes "zeroblob"
    ∷ []

unfoldable pub is_allowed_function : Option Text → Bool
unfolding text_eq
is_allowed_function none = false
is_allowed_function (some name) = any (text_eq name) allowed_function_names

-- These are read-only with an argument too.
abbrev pub introspection_pragmas : List Text
introspection_pragmas =
    codes "table_info"
    ∷ codes "table_xinfo"
    ∷ codes "index_info"
    ∷ codes "index_xinfo"
    ∷ codes "index_list"
    ∷ codes "foreign_key_list"
    ∷ []

-- These are read-only with no argument.
abbrev pub stateless_pragmas : List Text
stateless_pragmas =
    codes "collation_list"
    ∷ codes "compile_options"
    ∷ codes "data_version"
    ∷ codes "database_list"
    ∷ codes "defer_foreign_keys"
    ∷ codes "freelist_count"
    ∷ codes "function_list"
    ∷ codes "module_list"
    ∷ codes "page_count"
    ∷ codes "page_size"
    ∷ codes "pragma_list"
    ∷ codes "schema_version"
    ∷ codes "user_version"
    ∷ []

abbrev pub is_null : Option Text → Bool
is_null none = true
is_null (some _) = false

unfoldable pub is_introspection_pragma : Text → Bool
unfolding text_eq
is_introspection_pragma name = any (text_eq name) introspection_pragmas

unfoldable pub is_stateless_pragma : Text → Bool
unfolding text_eq
is_stateless_pragma name = any (text_eq name) stateless_pragmas

unfoldable pub is_readonly_pragma : Option Text → Option Text → Bool
is_readonly_pragma none arg = false
is_readonly_pragma (some name) arg =
    if is_introspection_pragma name
    then true
    else if is_stateless_pragma name
    then is_null arg
    else false

abbrev verdict : Bool → Verdict
verdict true = ok
verdict false = deny

-- The two `switch` statements, by role. The integer of the context is always one of the roles:
-- `SetAuthorizerRole` refuses any other.
unfoldable pub authorizer : AuthorizerRole → Action → Option Text → Option Text → Verdict
authorizer admin action arg3 arg4 = ok
authorizer read_write select arg3 arg4 = ok
authorizer read_write read arg3 arg4 = ok
authorizer read_write recursive arg3 arg4 = ok
authorizer read_write function arg3 arg4 = verdict (is_allowed_function arg4)
authorizer read_write pragma arg3 arg4 = verdict (is_readonly_pragma arg3 arg4)
authorizer read_write transaction arg3 arg4 = ok
authorizer read_write savepoint arg3 arg4 = ok
authorizer read_write insert arg3 arg4 = if is_internal_table arg3 then deny else ok
authorizer read_write update arg3 arg4 = if is_internal_table arg3 then deny else ok
authorizer read_write delete arg3 arg4 = if is_internal_table arg3 then deny else ok
authorizer read_write (other code) arg3 arg4 = deny
authorizer read_only select arg3 arg4 = ok
authorizer read_only read arg3 arg4 = ok
authorizer read_only recursive arg3 arg4 = ok
authorizer read_only function arg3 arg4 = verdict (is_allowed_function arg4)
authorizer read_only pragma arg3 arg4 = verdict (is_readonly_pragma arg3 arg4)
authorizer read_only _ arg3 arg4 = deny

-- The context pointer: a null context denies.
unfoldable pub callback : Option AuthorizerRole → Action → Option Text → Option Text → Verdict
unfolding authorizer
callback none action arg3 arg4 = deny
callback (some role) action arg3 arg4 = authorizer role action arg3 arg4
