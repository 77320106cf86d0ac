-- ===== src/Entrypoint/Credentials.antt =====
-- The credentials that the entrypoint hands on to the process it starts.
use nsqlite.Prelude.{
  trim_space, sym, ℕ, ◌≡◌, refl, ◌∙◌, ◌⊎◌, ap, true, false, List, Option, some, Text, codes,
  text_eq, is_empty, if◌then◌else◌, arith, Bool-cases, inl, inr, lookup,
}
use nsqlite.Entrypoint.Env.{
  EntrypointError, Checked, valid, failed, Environment, at, required, load_environment,
  merge_exec_environment,
}
use nsqlite.Entrypoint.Plan.{
  LitestreamSettings, LitestreamConfig, exec_environment, load_litestream_settings, EntrypointPlan,
  litestream_binary, litestream_plan, build_entrypoint_plan,
}
use nsqlite.Entrypoint.Start.{getenv, overriding, HasKeys, getenv-merge_exec_environment}

Checked-cases {ℓ} :
    {A : Type ℓ} (c : Checked A)
    → ((a : A) × (c ≡ valid a)) ⊎ ((x : EntrypointError) × (c ≡ failed x))
Checked-cases (valid a) = inl (a, refl)
Checked-cases (failed x) = inr (x, refl)

-- A setting of the container, without the spaces around it.
abbrev pub setting : Environment → Text → Text
setting env key = trim_space (at env key)

required-setting :
    (env : Environment) (key v : Text)
    → required env key ≡ valid v
    → (v ≡ setting env key) × (is_empty v ≡ false)
unfolding required
required-setting env key v h = ground arith

-- The settings that a plan is made from are those of the container.
abbrev IsFrom : Environment → LitestreamSettings → Type 0
IsFrom env s =
    (s.access_key_id ≡ setting env (codes "NSQLITE_LITESTREAM_S3_ACCESS_KEY_ID"))
    × (s.secret_access_key ≡ setting env (codes "NSQLITE_LITESTREAM_S3_SECRET_ACCESS_KEY"))
    × (s.session_token ≡ setting env (codes "NSQLITE_LITESTREAM_S3_SESSION_TOKEN"))
    × (is_empty s.access_key_id ≡ false)
    × (is_empty s.secret_access_key ≡ false)

load_litestream_settings-IsFrom :
    (env : Environment) (s : LitestreamSettings)
    → load_litestream_settings env ≡ valid s
    → IsFrom env s
unfolding load_litestream_settings
load_litestream_settings-IsFrom env s h = ground (
  arith,
  required-setting env (codes "NSQLITE_LITESTREAM_S3_ACCESS_KEY_ID") s.access_key_id,
  required-setting env (codes "NSQLITE_LITESTREAM_S3_SECRET_ACCESS_KEY") s.secret_access_key,
)

abbrev pub AreFull : Environment → Type 0
AreFull env =
    (is_empty (setting env (codes "NSQLITE_LITESTREAM_S3_BUCKET")) ≡ false)
    × (is_empty (setting env (codes "NSQLITE_LITESTREAM_S3_PATH")) ≡ false)
    × (is_empty (setting env (codes "NSQLITE_LITESTREAM_S3_ENDPOINT")) ≡ false)
    × (is_empty (setting env (codes "NSQLITE_LITESTREAM_S3_REGION")) ≡ false)

load_litestream_settings-AreFull :
    (env : Environment) (s : LitestreamSettings)
    → load_litestream_settings env ≡ valid s
    → AreFull env
unfolding load_litestream_settings required
load_litestream_settings-AreFull env s h = ground arith

exec_environment-HasKeys : (s : LitestreamSettings) → HasKeys (exec_environment s)
unfolding exec_environment
exec_environment-HasKeys s = ground arith

-- In the environment of the started process, the credentials are those of the container, which has
-- a key and a secret; without a session token there, the one that the process had stays.
abbrev pub HandsOn : Environment → List Text → List Text → Type 0
HandsOn env base process =
    let key = setting env (codes "NSQLITE_LITESTREAM_S3_ACCESS_KEY_ID") in
    let secret = setting env (codes "NSQLITE_LITESTREAM_S3_SECRET_ACCESS_KEY") in
    let token = setting env (codes "NSQLITE_LITESTREAM_S3_SESSION_TOKEN") in
    (is_empty key ≡ false)
    × (is_empty secret ≡ false)
    × (getenv (codes "AWS_ACCESS_KEY_ID") process ≡ some key)
    × (getenv (codes "AWS_SECRET_ACCESS_KEY") process ≡ some secret)
    × (getenv (codes "AWS_SESSION_TOKEN") process ≡ (
        if is_empty token
        then lookup (codes "AWS_SESSION_TOKEN") (load_environment base)
        else some token))

overriding-credentials :
    (s : LitestreamSettings) (o : Option Text)
    → (overriding (codes "AWS_ACCESS_KEY_ID") (exec_environment s) o ≡ some s.access_key_id)
      × (overriding (codes "AWS_SECRET_ACCESS_KEY") (exec_environment s) o
          ≡ some s.secret_access_key)
      × (overriding (codes "AWS_SESSION_TOKEN") (exec_environment s) o
          ≡ (if is_empty s.session_token then o else some s.session_token))
unfolding exec_environment text_eq
overriding-credentials s o = elim (Bool-cases (is_empty s.session_token)) [
  | inl empty ↦ ground arith
  | inr full ↦ ground arith
]

-- A credential of the plan, in the environment of the process.
getenv-exec_environment :
    (s : LitestreamSettings) (base : List Text) (k : Text)
    → getenv k (merge_exec_environment base (exec_environment s))
      ≡ overriding k (exec_environment s) (lookup k (load_environment base))
getenv-exec_environment s base k =
    getenv-merge_exec_environment k base (exec_environment s) (exec_environment-HasKeys s)

hands_on :
    (env : Environment) (s : LitestreamSettings) (base : List Text)
    → IsFrom env s
    → HandsOn env base (merge_exec_environment base (exec_environment s))
hands_on env s base from =
    let had : Text → Option Text = λ k. lookup k (load_environment base) in
    let (key, secret, token, some_key, some_secret) = from in
    (
      rw (sym key) some_key,
      rw (sym secret) some_secret,
      getenv-exec_environment s base (codes "AWS_ACCESS_KEY_ID")
          ∙ (overriding-credentials s (had (codes "AWS_ACCESS_KEY_ID"))).0
          ∙ ap some key,
      getenv-exec_environment s base (codes "AWS_SECRET_ACCESS_KEY")
          ∙ (overriding-credentials s (had (codes "AWS_SECRET_ACCESS_KEY"))).1
          ∙ ap some secret,
      getenv-exec_environment s base (codes "AWS_SESSION_TOKEN")
          ∙ (overriding-credentials s (had (codes "AWS_SESSION_TOKEN"))).2
          ∙ ap (λ t. if is_empty t then had (codes "AWS_SESSION_TOKEN") else some t) token,
    )

module _ (marshal : LitestreamConfig → Option (List ℕ)) where
  litestream_plan-settings :
      (env : Environment) (args : List Text) (p : EntrypointPlan)
      → build_entrypoint_plan marshal env args ≡ valid p
      → text_eq p.path litestream_binary ≡ true
      → (settings : LitestreamSettings) × (load_litestream_settings env ≡ valid settings)
        × (p.extra_env ≡ exec_environment settings)
  unfolding build_entrypoint_plan litestream_plan text_eq
  litestream_plan-settings env args p h l = elim (Checked-cases (load_litestream_settings env)) [
    | inl (settings, is) ↦ (settings, is, ground arith)
    | inr (x, is) ↦ absurd (ground arith)
  ]

  -- A plan that runs Litestream is made only when the container has a bucket, a path, an endpoint,
  -- a region, a key and a secret that are more than spaces. In the environment of the started
  -- process, AWS_ACCESS_KEY_ID and AWS_SECRET_ACCESS_KEY are then this key and this secret without
  -- the spaces around them, and AWS_SESSION_TOKEN is the session token of the container, or without
  -- one what it was before.
  pub build_entrypoint_plan-credentials :
      (env : Environment) (args base : List Text) (p : EntrypointPlan)
      → build_entrypoint_plan marshal env args ≡ valid p
      → text_eq p.path litestream_binary ≡ true
      → AreFull env × HandsOn env base (merge_exec_environment base p.extra_env)
  build_entrypoint_plan-credentials env args base p h l =
      let (settings, is, extra) = litestream_plan-settings env args p h l in
      rw extra (
        load_litestream_settings-AreFull env settings is,
        hands_on env settings base (load_litestream_settings-IsFrom env settings is),
      )
