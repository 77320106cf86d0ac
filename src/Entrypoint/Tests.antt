-- ===== src/Entrypoint/Tests.antt =====
-- Runs of the entrypoint with and without Litestream.
use nsqlite.Prelude.{
  ℕ, ◌≡◌, refl, List, [], ◌∷◌, Option, none, some, get_elem?, Text, codes, text_eq, lookup,
  trim_space, to_lower,
}
use nsqlite.Entrypoint.Env.{
  Environment, valid, load_environment, merge_exec_environment, required, default_value, bool_value,
  parse_bool,
}
use nsqlite.Entrypoint.Plan.{
  LitestreamConfig, EntrypointPlan, nsqlite_binary, litestream_binary, build_entrypoint_plan,
  load_litestream_settings, litestream_plan, render_litestream_config, exec_environment,
  litestream_config, resolve_database_path, clean,
}
use nsqlite.Entrypoint.Shell.{shell_join, shell_quote, escape_quotes, is_special}
use nsqlite.Entrypoint.Words.{shell_words, shell_words-shell_join}
use nsqlite.Entrypoint.Credentials.{AreFull, HandsOn, build_entrypoint_plan-credentials}
use nsqlite.Entrypoint.Start.{
  RunsExec, command_of, overriding, getenv, build_entrypoint_plan-command,
  getenv-merge_exec_environment,
}

abbrev marshal_path : LitestreamConfig → Option (List ℕ)
marshal_path config = some config.database_path

abbrev container : Environment
container =
    (codes "NSQLITE_LITESTREAM_ENABLED", codes " TRUE ")
    ∷ (codes "NSQLITE_LITESTREAM_S3_BUCKET", codes "b")
    ∷ (codes "NSQLITE_LITESTREAM_S3_PATH", codes "/p")
    ∷ (codes "NSQLITE_LITESTREAM_S3_ENDPOINT", codes "e")
    ∷ (codes "NSQLITE_LITESTREAM_S3_REGION", codes "r")
    ∷ (codes "NSQLITE_LITESTREAM_S3_ACCESS_KEY_ID", codes "k")
    ∷ (codes "NSQLITE_LITESTREAM_S3_SECRET_ACCESS_KEY", codes "s")
    ∷ []

abbrev arguments : List Text
arguments = codes "it's" ∷ [] ∷ codes "--port=9876" ∷ []

abbrev plan : EntrypointPlan
plan = record {
  path = litestream_binary;
  args =
      litestream_binary
      ∷ codes "replicate"
      ∷ codes "-config"
      ∷ codes "/tmp/litestream.yml"
      ∷ codes "-exec"
      ∷ codes "/usr/local/bin/nsqlite 'it'\\''s' '' --port=9876"
      ∷ [];
  database_path = codes "/data/database.sqlite";
  config_path = codes "/tmp/litestream.yml";
  config_bytes = codes "/data/database.sqlite";
  extra_env =
      (codes "AWS_ACCESS_KEY_ID", codes "k") ∷ (codes "AWS_SECRET_ACCESS_KEY", codes "s") ∷ [];
}

plan_is_built : build_entrypoint_plan marshal_path container arguments ≡ valid plan
unfolding build_entrypoint_plan litestream_plan load_litestream_settings render_litestream_config
    required default_value bool_value parse_bool text_eq shell_join shell_quote escape_quotes
    is_special exec_environment resolve_database_path clean trim_space to_lower litestream_config
plan_is_built = refl

resolves : resolve_database_path (codes "./a//b/../") ≡ codes "a/database.sqlite"
unfolding resolve_database_path clean text_eq
resolves = refl

shell_words-shell_join_example : shell_words (shell_join arguments) ≡ some arguments
shell_words-shell_join_example = shell_words-shell_join arguments

-- A Litestream that runs the words of the last argument.
abbrev litestream : List Text → Option (List Text)
litestream args = elim (get_elem? args 5) [ none ↦ none | some command ↦ shell_words command ]

litestream_runs : RunsExec litestream
litestream_runs config_path command words h = h

build_entrypoint_plan-command_example :
    command_of litestream plan ≡ some (nsqlite_binary ∷ arguments)
build_entrypoint_plan-command_example =
    build_entrypoint_plan-command marshal_path litestream litestream_runs container arguments plan
      plan_is_built

build_entrypoint_plan-credentials_example :
    AreFull container
    × HandsOn container
        (codes "AWS_SESSION_TOKEN=t" ∷ [])
        (merge_exec_environment (codes "AWS_SESSION_TOKEN=t" ∷ []) plan.extra_env)
unfolding text_eq
build_entrypoint_plan-credentials_example =
    build_entrypoint_plan-credentials marshal_path container arguments
      (codes "AWS_SESSION_TOKEN=t" ∷ []) plan plan_is_built refl

getenv-merge_exec_environment_example :
    getenv
      (codes "A")
      (merge_exec_environment (codes "A=1" ∷ codes "B=2" ∷ []) ((codes "A", codes "3") ∷ []))
    ≡ overriding
        (codes "A")
        ((codes "A", codes "3") ∷ [])
        (lookup (codes "A") (load_environment (codes "A=1" ∷ codes "B=2" ∷ [])))
getenv-merge_exec_environment_example =
    getenv-merge_exec_environment (codes "A") (codes "A=1" ∷ codes "B=2" ∷ [])
      ((codes "A", codes "3") ∷ []) (refl, tt)
