-- ===== src/Entrypoint/Env.antt =====
-- cmd/entrypoint/main.go: the environment variables.
use nsqlite.Prelude.{
  Bool, true, false, ◌||◌, List, [], ◌∷◌, ◌++◌, Option, none, some, Text, codes, text_eq,
  trim_space, to_lower, is_empty, ◌==◌, if◌then◌else◌, put, lookup,
}

pub data EntrypointError : Type 0 where
  invalid_boolean_value : Text → EntrypointError
  litestream_requires : Text → EntrypointError
  marshal_litestream_config : EntrypointError

pub data Checked {ℓ} (A : Type ℓ) : Type ℓ where
  valid : A → Checked A
  failed : EntrypointError → Checked A

infixl 5 ◌>>=◌
abbrev pub ◌>>=◌ {ℓ κ} : {A : Type ℓ} {B : Type κ} → Checked A → (A → Checked B) → Checked B
valid a >>= f = f a
failed x >>= f = failed x

abbrev pub Environment : Type 0
Environment = List (Text × Text)

-- Go's `env[key]`
abbrev pub at : Environment → Text → Text
at env key = elim (lookup key env) [ none ↦ [] | some value ↦ value ]

unfoldable pub required : Environment → Text → Checked Text
required env key =
    if is_empty (trim_space (at env key))
    then failed (litestream_requires key)
    else valid (trim_space (at env key))

unfoldable pub default_value : Environment → Text → Text → Text
default_value env key fallback =
    if is_empty (trim_space (at env key)) then fallback else trim_space (at env key)

abbrev pub is_one_of : Text → List Text → Bool
is_one_of s [] = false
is_one_of s (t ∷ ts) = text_eq s t || is_one_of s ts

unfoldable pub parse_bool : Text → Checked Bool
parse_bool value =
    let v = to_lower (trim_space value) in
    if is_one_of v (codes "1" ∷ codes "true" ∷ codes "yes" ∷ codes "on" ∷ [])
    then valid true
    else if is_one_of v (codes "0" ∷ codes "false" ∷ codes "no" ∷ codes "off" ∷ [])
    then valid false
    else failed (invalid_boolean_value value)

-- `environment.bool`
unfoldable pub bool_value : Environment → Text → Bool → Checked Bool
bool_value env key fallback =
    if is_empty (trim_space (at env key))
    then valid fallback
    else parse_bool (trim_space (at env key))

-- strings.Cut at `=`
abbrev pub cut_more : Option (Text × Text) → (Text → Text) → Option (Text × Text)
cut_more none f = none
cut_more (some (key, value)) f = some (f key, value)

unfoldable pub cut : Text → Option (Text × Text)
cut [] = none
cut (c ∷ s) = let rest = cut s in if c == b'=' then some ([], s) else cut_more rest (λ key. c ∷ key)

abbrev pub put_entry : Option (Text × Text) → Environment → Environment
put_entry none env = env
put_entry (some (key, value)) env = put key value env

abbrev pub put_entries : List Text → Environment → Environment
put_entries [] env = env
put_entries (entry ∷ entries) env = put_entries entries (put_entry (cut entry) env)

unfoldable pub load_environment : List Text → Environment
load_environment entries = put_entries entries []

-- maps.Copy
abbrev pub copy : Environment → Environment → Environment
copy merged [] = merged
copy merged ((key, value) ∷ overrides) = copy (put key value merged) overrides

abbrev pub entries_of : Environment → List Text
entries_of [] = []
entries_of ((key, value) ∷ env) = (key ++ codes "=" ++ value) ∷ entries_of env

-- The entries in the order of the map's entries; Go leaves their order open.
unfoldable pub merge_exec_environment : List Text → Environment → List Text
merge_exec_environment base overrides = entries_of (copy (put_entries base []) overrides)
