-- ===== src/Entrypoint/Plan.antt =====
-- cmd/entrypoint/main.go: the plan of the process that replaces the entrypoint. The renderer of
-- YAML, a third-party package, is an argument.
use nsqlite.Prelude.{
  ℕ, Bool, false, List, [], ◌∷◌, ◌++◌, Option, none, some, Text, codes, text_eq, trim_space,
  is_empty, ◌==◌, if◌then◌else◌,
}
use mathlib.Core.List.{reverse}
use nsqlite.Entrypoint.Env.{
  marshal_litestream_config, Checked, valid, failed, ◌>>=◌, Environment, at, required,
  default_value, bool_value,
}
use nsqlite.Entrypoint.Shell.{shell_join}

pub record LitestreamSettings : Type 0 where
  pub bucket : Text
  pub path : Text
  pub endpoint : Text
  pub region : Text
  pub access_key_id : Text
  pub secret_access_key : Text
  pub session_token : Text
  pub config_path : Text
  pub log_level : Text
  pub log_format : Text
  pub snapshot_interval : Text
  pub snapshot_retention : Text
  pub sync_interval : Text
  pub validation_interval : Text

-- strings.TrimLeft(s, "/")
abbrev pub trim_left_slash : Text → Text
trim_left_slash [] = []
trim_left_slash (c ∷ s) = if c == b'/' then trim_left_slash s else c ∷ s

-- strings.TrimRight(s, "/")
abbrev pub trim_right_slash : Text → Text
trim_right_slash s = reverse (trim_left_slash (reverse s))

unfoldable pub load_litestream_settings : Environment → Checked LitestreamSettings
load_litestream_settings env = do
  bucket ← required env (codes "NSQLITE_LITESTREAM_S3_BUCKET")
  path ← required env (codes "NSQLITE_LITESTREAM_S3_PATH")
  endpoint ← required env (codes "NSQLITE_LITESTREAM_S3_ENDPOINT")
  region ← required env (codes "NSQLITE_LITESTREAM_S3_REGION")
  access_key_id ← required env (codes "NSQLITE_LITESTREAM_S3_ACCESS_KEY_ID")
  secret_access_key ← required env (codes "NSQLITE_LITESTREAM_S3_SECRET_ACCESS_KEY")
  valid (record {
    bucket = bucket;
    path = trim_left_slash path;
    endpoint = endpoint;
    region = region;
    access_key_id = access_key_id;
    secret_access_key = secret_access_key;
    session_token = trim_space (at env (codes "NSQLITE_LITESTREAM_S3_SESSION_TOKEN"));
    config_path =
        default_value env (codes "NSQLITE_LITESTREAM_CONFIG_PATH") (codes "/tmp/litestream.yml");
    log_level = default_value env (codes "NSQLITE_LITESTREAM_LOG_LEVEL") (codes "info");
    log_format = default_value env (codes "NSQLITE_LITESTREAM_LOG_FORMAT") (codes "text");
    snapshot_interval =
        default_value env (codes "NSQLITE_LITESTREAM_SNAPSHOT_INTERVAL") (codes "24h");
    snapshot_retention =
        default_value env (codes "NSQLITE_LITESTREAM_SNAPSHOT_RETENTION") (codes "168h");
    sync_interval = default_value env (codes "NSQLITE_LITESTREAM_SYNC_INTERVAL") (codes "1s");
    validation_interval =
        default_value env (codes "NSQLITE_LITESTREAM_VALIDATION_INTERVAL") (codes "5m");
  })

unfoldable pub exec_environment : LitestreamSettings → Environment
exec_environment settings =
    (codes "AWS_ACCESS_KEY_ID", settings.access_key_id)
    ∷ (codes "AWS_SECRET_ACCESS_KEY", settings.secret_access_key)
    ∷ (if is_empty settings.session_token
        then []
        else (codes "AWS_SESSION_TOKEN", settings.session_token) ∷ [])

-- `litestreamConfig`, with its one database and replica
pub record LitestreamConfig : Type 0 where
  pub level : Text
  pub type : Text
  pub interval : Text
  pub retention : Text
  pub database_path : Text
  pub replica_type : Text
  pub bucket : Text
  pub path : Text
  pub endpoint : Text
  pub region : Text
  pub sync_interval : Text
  pub validation_interval : Text

unfoldable pub litestream_config : Text → LitestreamSettings → LitestreamConfig
litestream_config database_path settings = record {
  level = settings.log_level;
  type = settings.log_format;
  interval = settings.snapshot_interval;
  retention = settings.snapshot_retention;
  database_path = database_path;
  replica_type = codes "s3";
  bucket = settings.bucket;
  path = settings.path;
  endpoint = settings.endpoint;
  region = settings.region;
  sync_interval = settings.sync_interval;
  validation_interval = settings.validation_interval;
}

-- filepath.Clean, by the elements of the path: the stack holds the elements kept, the last first.
abbrev pub push_parent : Bool → List Text → List Text
push_parent rooted [] = if rooted then [] else codes ".." ∷ []
push_parent rooted (s ∷ ss) = if text_eq s (codes "..") then codes ".." ∷ s ∷ ss else ss

abbrev pub push_element : Bool → Text → List Text → List Text
push_element rooted s ss =
    if is_empty s
    then ss
    else if text_eq s (codes ".")
    then ss
    else if text_eq s (codes "..")
    then push_parent rooted ss
    else s ∷ ss

abbrev pub push_elements : Bool → List Text → List Text → List Text
push_elements rooted [] ss = ss
push_elements rooted (s ∷ path) ss = push_elements rooted path (push_element rooted s ss)

abbrev pub add_char : ℕ → List Text → List Text
add_char c [] = (c ∷ []) ∷ []
add_char c (s ∷ ss) = (c ∷ s) ∷ ss

abbrev pub elements : Text → List Text
elements [] = [] ∷ []
elements (c ∷ s) = let rest = elements s in if c == b'/' then [] ∷ rest else add_char c rest

abbrev pub with_slashes : List Text → Text
with_slashes [] = []
with_slashes (s ∷ []) = s
with_slashes (s ∷ ss) = s ++ codes "/" ++ with_slashes ss

abbrev pub is_rooted : Text → Bool
is_rooted [] = false
is_rooted (c ∷ s) = c == b'/'

abbrev pub or_dot : Text → Text
or_dot [] = codes "."
or_dot (c ∷ s) = c ∷ s

unfoldable pub clean : Text → Text
clean path =
    let kept = with_slashes (reverse (push_elements (is_rooted path) (elements path) [])) in
    if is_rooted path then b'/' ∷ kept else or_dot kept

unfoldable pub resolve_database_path : Text → Text
resolve_database_path data_dir =
    let clean_data_dir = trim_right_slash data_dir in
    let dir = if is_empty clean_data_dir then codes "/data" else clean_data_dir in
    clean (dir ++ codes "/database.sqlite")

pub record EntrypointPlan : Type 0 where
  pub path : Text
  pub args : List Text
  pub database_path : Text
  pub config_path : Text
  pub config_bytes : List ℕ
  pub extra_env : Environment

abbrev pub nsqlite_binary : Text
nsqlite_binary = codes "/usr/local/bin/nsqlite"

abbrev pub litestream_binary : Text
litestream_binary = codes "/usr/local/bin/litestream"

module _ (marshal : LitestreamConfig → Option (List ℕ)) where
  unfoldable pub render_litestream_config : Text → LitestreamSettings → Checked (List ℕ)
  render_litestream_config database_path settings =
      elim (marshal (litestream_config database_path settings)) [
        | none ↦ failed marshal_litestream_config
        | some bytes ↦ valid bytes
      ]

  unfoldable pub litestream_plan : Environment → List Text → Checked EntrypointPlan
  litestream_plan env args = do
    settings ← load_litestream_settings env
    let database_path =
        resolve_database_path (default_value env (codes "NSQLITE_DATA_DIR") (codes "/data"))
    config_bytes ← render_litestream_config database_path settings
    valid (record {
      path = litestream_binary;
      args =
          litestream_binary
          ∷ codes "replicate"
          ∷ codes "-config"
          ∷ settings.config_path
          ∷ codes "-exec"
          ∷ shell_join (nsqlite_binary ∷ args)
          ∷ [];
      database_path = database_path;
      config_path = settings.config_path;
      config_bytes = config_bytes;
      extra_env = exec_environment settings;
    })

  abbrev pub direct_plan : List Text → EntrypointPlan
  direct_plan args = record {
    path = nsqlite_binary;
    args = nsqlite_binary ∷ args;
    database_path = [];
    config_path = [];
    config_bytes = [];
    extra_env = [];
  }

  unfoldable pub build_entrypoint_plan : Environment → List Text → Checked EntrypointPlan
  build_entrypoint_plan env args = do
    enabled ← bool_value env (codes "NSQLITE_LITESTREAM_ENABLED") false
    if enabled then litestream_plan env args else valid (direct_plan args)
