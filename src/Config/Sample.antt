-- ===== src/Config/Sample.antt =====
-- The default settings, with a token.
use nsqlite.Prelude.{◌≡◌, refl, [], none, codes}
use nsqlite.Config.Regex.{accepts, match_string}
use nsqlite.Config.Decimal.{value_from}
use nsqlite.Config.Validate.{listen_host, port, atoi}
use nsqlite.Config.Settings.{Config}
use nsqlite.Config.Parse.{
  ArgParser, parsed, parse, check, validate_transaction_timeout, validate_busy_timeout,
  validate_cache_size, IsValid, parse_iff,
}

-- The defaults of the field tags, with a token for the administrators.
abbrev pub default_config : Config
default_config = record {
  auth_token = codes " s3cret ";
  auth_token_rw = codes " ";
  auth_token_ro = [];
  data_dir = codes "/data";
  listen_host = codes "0.0.0.0";
  listen_port = codes "9876";
  tx_idle_timeout = 10000000000;
  max_read_conns = 10;
  cache_size_kb = 20000;
  busy_timeout = 5000000000;
  max_request_size_mb = 100;
}

abbrev pub default_parser : ArgParser
default_parser = record { new_parser = none; parse_args = λ args. parsed default_config }

defaults_run : parse default_parser [] ≡ parsed default_config
unfolding parse check listen_host port match_string accepts atoi value_from
    validate_transaction_timeout validate_busy_timeout validate_cache_size
defaults_run = refl

pub default-IsValid : IsValid default_config
default-IsValid = ((parse_iff default_parser [] default_config).0 defaults_run).2
