-- ===== src/Config/Parse.antt =====
-- internal/config/config.go: `Parse`. The parser of arguments and environment variables is not of
-- this repository.
use nsqlite.Prelude.{
  ℕ, ◌≡◌, ◌≤◌, ◌<◌, ◌^◌, ◌↔◌, ◌⊎◌, inl, inr, Option-cases, refl, Bool, true, false, not, List,
  Option, none, some, Text, all, length, if◌then◌else◌, arith,
}
use nsqlite.Config.Regex.{Matches, match_string_iff}
use nsqlite.Config.Decimal.{is_digit, value}
use nsqlite.Config.Durations.{is_positive}
use nsqlite.Config.Validate.{listen_host, listen_host_re, port, port_iff}
use nsqlite.Config.Settings.{Config}

pub data ConfigError : Type 0 where
  arg_error : Text → ConfigError
  invalid_listen_address invalid_listen_port : Text → ConfigError
  invalid_transaction_timeout invalid_busy_timeout invalid_cache_size : ℕ → ConfigError

pub data Parsed : Type 0 where
  parsed : Config → Parsed
  failed : ConfigError → Parsed

Parsed-cases : (r : Parsed) → ((c : Config) × (r ≡ parsed c)) ⊎ ((x : ConfigError) × (r ≡ failed x))
Parsed-cases (parsed c) = inl (c, refl)
Parsed-cases (failed x) = inr (x, refl)

-- `arg.NewParser` with its error, and `Parse` into the settings.
pub record ArgParser : Type 0 where
  pub new_parser : Option Text
  pub parse_args : List Text → Parsed

unfoldable pub validate_transaction_timeout : ℕ → Option ConfigError
validate_transaction_timeout timeout =
    if is_positive timeout then none else some (invalid_transaction_timeout timeout)

unfoldable pub validate_busy_timeout : ℕ → Option ConfigError
validate_busy_timeout timeout =
    if is_positive timeout then none else some (invalid_busy_timeout timeout)

unfoldable pub validate_cache_size : ℕ → Option ConfigError
validate_cache_size size = if is_positive size then none else some (invalid_cache_size size)

abbrev pub fails_or : Option ConfigError → Parsed → Parsed
fails_or (some x) next = failed x
fails_or none next = next

-- The checks after the parser.
unfoldable pub check : Config → Parsed
unfolding listen_host port validate_transaction_timeout validate_busy_timeout validate_cache_size
check cfg =
    if not (listen_host cfg.listen_host)
    then failed (invalid_listen_address cfg.listen_host)
    else if not (port cfg.listen_port)
    then failed (invalid_listen_port cfg.listen_port)
    else fails_or (validate_transaction_timeout cfg.tx_idle_timeout) (
        fails_or (validate_busy_timeout cfg.busy_timeout)
          (fails_or (validate_cache_size cfg.cache_size_kb) (parsed cfg)))

unfoldable pub parse : ArgParser → List Text → Parsed
unfolding check
parse p args = elim p.new_parser [
  | some x ↦ failed (arg_error x)
  | none ↦ elim (p.parse_args args) [ failed x ↦ failed x | parsed cfg ↦ check cfg ]
]

-- Settings that the server can start with.
pub record IsValid (c : Config) : Type 0 where
  pub host : (t : Text) × Matches listen_host_re c.listen_host t
  pub port_digits : all is_digit c.listen_port ≡ true
  pub port_length : (1 ≤ length c.listen_port) × (length c.listen_port ≤ 5)
  pub port_value : (1 ≤ value c.listen_port) × (value c.listen_port ≤ 65535)
  pub tx_idle_timeout : (0 < c.tx_idle_timeout) × (c.tx_idle_timeout < 2 ^ 63)
  pub busy_timeout : (0 < c.busy_timeout) × (c.busy_timeout < 2 ^ 63)
  pub cache_size_kb : (0 < c.cache_size_kb) × (c.cache_size_kb < 2 ^ 63)

-- What the checks let pass.
abbrev Passes : Config → Type 0
Passes c =
    (listen_host c.listen_host ≡ true)
    × (port c.listen_port ≡ true)
    × (is_positive c.tx_idle_timeout ≡ true)
    × (is_positive c.busy_timeout ≡ true)
    × (is_positive c.cache_size_kb ≡ true)

passed :
    (b : Bool) (x : ConfigError) (next : Parsed) (c : Config)
    → (if not b then failed x else next) ≡ parsed c
    → (b ≡ true) × (next ≡ parsed c)
passed true x next c h = (refl, h)
passed false x next c h = absurd (ground arith)

went_on :
    (b : Bool) (x : ConfigError) (next : Parsed) (c : Config)
    → fails_or (if b then none else some x) next ≡ parsed c
    → (b ≡ true) × (next ≡ parsed c)
went_on true x next c h = (refl, h)
went_on false x next c h = absurd (ground arith)

check-Passes : (cfg c : Config) → check cfg ≡ parsed c → (cfg ≡ c) × Passes cfg
unfolding check validate_transaction_timeout validate_busy_timeout validate_cache_size
check-Passes cfg c h =
    let (host, h1) = passed (listen_host cfg.listen_host) _ _ c h in
    let (port_ok, h2) = passed (port cfg.listen_port) _ _ c h1 in
    let (tx, h3) = went_on (is_positive cfg.tx_idle_timeout) _ _ c h2 in
    let (busy, h4) = went_on (is_positive cfg.busy_timeout) _ _ c h3 in
    let (cache, h5) = went_on (is_positive cfg.cache_size_kb) _ _ c h4 in
    (ground arith, (host, port_ok, tx, busy, cache))

Passes-check : (c : Config) → Passes c → check c ≡ parsed c
unfolding check validate_transaction_timeout validate_busy_timeout validate_cache_size
Passes-check c h = ground arith

IsValid-iff : (c : Config) → Passes c ↔ IsValid c
unfolding listen_host
IsValid-iff c = (
  λ h. record {
    host = (match_string_iff listen_host_re c.listen_host).0 h.0;
    port_digits = ground (arith, port_iff c.listen_port);
    port_length = ground (arith, port_iff c.listen_port);
    port_value = ground (arith, port_iff c.listen_port);
    tx_idle_timeout = ground arith;
    busy_timeout = ground arith;
    cache_size_kb = ground arith;
  },
  λ v. (
    (match_string_iff listen_host_re c.listen_host).1 v.host,
    ground (arith, port_iff c.listen_port, v.port_digits, v.port_length, v.port_value),
    ground (arith, v.tx_idle_timeout),
    ground (arith, v.busy_timeout),
    ground (arith, v.cache_size_kb),
  ),
)

parse-Passes :
    (p : ArgParser) (args : List Text) (c : Config)
    → (parse p args ≡ parsed c)
      ↔ ((p.new_parser ≡ none) × (p.parse_args args ≡ parsed c) × Passes c)
unfolding parse
parse-Passes p args c = (
  λ h. elim (Option-cases p.new_parser) [
    | inr (x, e) ↦ absurd (ground arith)
    | inl none_new ↦ elim (Parsed-cases (p.parse_args args)) [
      | inr (x, e) ↦ absurd (ground arith)
      | inl (cfg, e) ↦ ground (arith, check-Passes cfg c)
    ]
  ],
  λ h. ground (arith, Passes-check c h.2),
)

-- `Parse` succeeds with some settings just if the parser of arguments was made, it gives these
-- settings, the host matches the pattern, the port has one to five digits and is between 1 and
-- 65535, and the idle timeout, the busy timeout and the cache size are positive 64-bit integers.
pub parse_iff :
    (p : ArgParser) (args : List Text) (c : Config)
    → (parse p args ≡ parsed c)
      ↔ ((p.new_parser ≡ none) × (p.parse_args args ≡ parsed c) × IsValid c)
parse_iff p args c = (
  λ h. let (n, e, ok_c) = (parse-Passes p args c).0 h in (n, e, (IsValid-iff c).0 ok_c),
  λ h. (parse-Passes p args c).1 (h.0, h.1, (IsValid-iff c).1 h.2),
)
