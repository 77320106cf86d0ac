-- ===== src/Config/Tests.antt =====
-- The theorems on the settings at concrete ones, and runs of the model.
use nsqlite.Prelude.{◌≡◌, ◌↔◌, refl, true, [], ◌∷◌, none, codes, all, is_space}
use nsqlite.Auth.Check.{auth_is_disabled}
use nsqlite.Config.Decimal.{decimal, digits}
use nsqlite.Config.Durations.{duration_text, int_text, small_text, large_text, fmt_frac}
use nsqlite.Config.Settings.{to_args, split_auth_tokens, fields_from}
use nsqlite.Config.Parse.{parsed, parse, IsValid, parse_iff}
use nsqlite.Config.Access.{auth_of, auth_is_disabled_iff}
use nsqlite.Config.Sample.{default_config, default_parser}

parse_iff_example : (parse default_parser [] ≡ parsed default_config) ↔ (
    (default_parser.new_parser ≡ none)
    × (default_parser.parse_args [] ≡ parsed default_config)
    × IsValid default_config)
parse_iff_example = parse_iff default_parser [] default_config

auth_is_disabled_iff_example : (auth_is_disabled (auth_of (codes "salt") default_config) ≡ true) ↔ (
    (all is_space (codes " s3cret ") ≡ true)
    × (all is_space (codes " ") ≡ true)
    × (all is_space [] ≡ true))
auth_is_disabled_iff_example = auth_is_disabled_iff (codes "salt") default_config

tokens_run : split_auth_tokens (codes " one  two ") ≡ codes "one" ∷ codes "two" ∷ []
unfolding split_auth_tokens fields_from
tokens_run = refl

args_run :
    to_args (record default_config {
      auth_token = [];
      auth_token_rw = [];
      listen_host = [];
      max_read_conns = 0;
    })
    ≡ codes "--data-dir"
      ∷ codes "/data"
      ∷ codes "--listen-port"
      ∷ codes "9876"
      ∷ codes "--tx-idle-timeout"
      ∷ codes "10s"
      ∷ codes "--cache-size-kb"
      ∷ codes "20000"
      ∷ codes "--busy-timeout"
      ∷ codes "5s"
      ∷ codes "--max-request-size-mb"
      ∷ codes "100"
      ∷ []
unfolding to_args duration_text int_text small_text large_text fmt_frac decimal digits
args_run = refl
