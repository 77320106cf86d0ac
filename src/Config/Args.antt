-- ===== src/Config/Args.antt =====
-- Each setting in the arguments of `ToArgs`.
use nsqlite.Prelude.{
  ◌≡◌, refl, ap, ◌∙◌, Bool, not, List, [], ◌∷◌, ◌++◌, Option, none, some, Text, codes, text_eq,
  is_empty, ◌==◌, if◌then◌else◌, arith,
}
use nsqlite.Config.Durations.{int_text, duration_text}
use nsqlite.Config.Settings.{Config, arg, to_args}

pub data Flag : Type 0 where
  auth_token auth_token_rw auth_token_ro data_dir listen_host listen_port : Flag
  tx_idle_timeout max_read_conns cache_size_kb busy_timeout max_request_size_mb : Flag

-- The names that the field tags of the settings give.
abbrev pub flag_name : Flag → Text
flag_name auth_token = codes "--auth-token"
flag_name auth_token_rw = codes "--auth-token-rw"
flag_name auth_token_ro = codes "--auth-token-ro"
flag_name data_dir = codes "--data-dir"
flag_name listen_host = codes "--listen-host"
flag_name listen_port = codes "--listen-port"
flag_name tx_idle_timeout = codes "--tx-idle-timeout"
flag_name max_read_conns = codes "--max-read-conns"
flag_name cache_size_kb = codes "--cache-size-kb"
flag_name busy_timeout = codes "--busy-timeout"
flag_name max_request_size_mb = codes "--max-request-size-mb"

abbrev pub text_setting : Text → Option Text
text_setting s = if is_empty s then none else some s

-- What a setting is given as; a zero value is left to the default.
abbrev pub setting : Flag → Config → Option Text
setting auth_token c = text_setting c.auth_token
setting auth_token_rw c = text_setting c.auth_token_rw
setting auth_token_ro c = text_setting c.auth_token_ro
setting data_dir c = text_setting c.data_dir
setting listen_host c = text_setting c.listen_host
setting listen_port c = text_setting c.listen_port
setting tx_idle_timeout c =
    if c.tx_idle_timeout == 0 then none else some (duration_text c.tx_idle_timeout)
setting max_read_conns c = if c.max_read_conns == 0 then none else some (int_text c.max_read_conns)
setting cache_size_kb c = if c.cache_size_kb == 0 then none else some (int_text c.cache_size_kb)
setting busy_timeout c = if c.busy_timeout == 0 then none else some (duration_text c.busy_timeout)
setting max_request_size_mb c =
    if c.max_request_size_mb == 0 then none else some (int_text c.max_request_size_mb)

-- The value after a flag, in arguments that are pairs.
unfoldable pub value_of : Text → List Text → Option Text
value_of flag [] = none
value_of flag (f ∷ []) = none
value_of flag (f ∷ v ∷ args) = if text_eq f flag then some v else value_of flag args

record Entry : Type 0 where
  given : Bool
  flag : Text
  value : Text

flatten : List Entry → List Text
flatten [] = []
flatten (e ∷ es) = arg e.given e.flag e.value ++ flatten es

find : Text → List Entry → Option Text
find flag [] = none
find flag (e ∷ es) =
    let rest = find flag es in
    if text_eq e.flag flag then (if e.given then some e.value else rest) else rest

value_of-flatten : (flag : Text) (es : List Entry) → value_of flag (flatten es) ≡ find flag es
unfolding value_of flatten find
value_of-flatten flag [] = refl
value_of-flatten flag (e ∷ es) = ground (arith, value_of-flatten flag es)

entry : Bool → Text → Text → Entry
entry given flag value = record { given = given; flag = flag; value = value }

entries : Config → List Entry
unfolding entry
entries c =
    entry (not (is_empty c.auth_token)) (flag_name auth_token) c.auth_token
    ∷ entry (not (is_empty c.auth_token_rw)) (flag_name auth_token_rw) c.auth_token_rw
    ∷ entry (not (is_empty c.auth_token_ro)) (flag_name auth_token_ro) c.auth_token_ro
    ∷ entry (not (is_empty c.data_dir)) (flag_name data_dir) c.data_dir
    ∷ entry (not (is_empty c.listen_host)) (flag_name listen_host) c.listen_host
    ∷ entry (not (is_empty c.listen_port)) (flag_name listen_port) c.listen_port
    ∷ entry (not (c.tx_idle_timeout == 0)) (flag_name tx_idle_timeout)
        (duration_text c.tx_idle_timeout)
    ∷ entry (not (c.max_read_conns == 0)) (flag_name max_read_conns) (int_text c.max_read_conns)
    ∷ entry (not (c.cache_size_kb == 0)) (flag_name cache_size_kb) (int_text c.cache_size_kb)
    ∷ entry (not (c.busy_timeout == 0)) (flag_name busy_timeout) (duration_text c.busy_timeout)
    ∷ entry (not (c.max_request_size_mb == 0)) (flag_name max_request_size_mb)
        (int_text c.max_request_size_mb)
    ∷ []

to_args-entries : (c : Config) → to_args c ≡ flatten (entries c)
unfolding to_args flatten entries entry
to_args-entries c = refl

find-entries : (c : Config) (f : Flag) → find (flag_name f) (entries c) ≡ setting f c
unfolding find entries entry text_eq
find-entries c auth_token = ground arith
find-entries c auth_token_rw = ground arith
find-entries c auth_token_ro = ground arith
find-entries c data_dir = ground arith
find-entries c listen_host = ground arith
find-entries c listen_port = ground arith
find-entries c tx_idle_timeout = ground arith
find-entries c max_read_conns = ground arith
find-entries c cache_size_kb = ground arith
find-entries c busy_timeout = ground arith
find-entries c max_request_size_mb = ground arith

pub value_of-to_args : (c : Config) (f : Flag) → value_of (flag_name f) (to_args c) ≡ setting f c
value_of-to_args c f =
    ap (value_of (flag_name f)) (to_args-entries c)
    ∙ (value_of-flatten (flag_name f) (entries c) ∙ find-entries c f)
