-- ===== src/Entrypoint/Start.antt =====
-- What the process that the entrypoint starts is given: its command and its environment.
use nsqlite.Prelude.{
  ℕ, ◌≡◌, refl, ◌∙◌, ap, false, List, [], ◌∷◌, ◌++◌, Option, none, some, Text, codes, text_eq, any,
  ◌==◌, if◌then◌else◌, arith, All, Bool-cases, Option-cases, inl, inr, put, lookup, lookup-put,
}
use nsqlite.Entrypoint.Env.{
  valid, Environment, cut, put_entries, load_environment, copy, entries_of, merge_exec_environment,
}
use nsqlite.Entrypoint.Plan.{
  LitestreamConfig, EntrypointPlan, nsqlite_binary, litestream_binary, litestream_plan,
  build_entrypoint_plan,
}
use nsqlite.Entrypoint.Shell.{shell_join}
use nsqlite.Entrypoint.Words.{shell_words, shell_words-shell_join}

-- Litestream, a third-party program: `replicate` with a configuration and a command runs the words
-- of the command, which it splits as a shell does, without expansions.
abbrev pub RunsExec : (List Text → Option (List Text)) → Type 0
RunsExec litestream =
    (config_path command : Text) (words : List Text)
    → shell_words command ≡ some words
    → litestream (
        litestream_binary
        ∷ codes "replicate"
        ∷ codes "-config"
        ∷ config_path
        ∷ codes "-exec"
        ∷ command
        ∷ [])
      ≡ some words

-- The command that runs in the end: what Litestream runs for its arguments, or the plan's own.
abbrev pub command_of : (List Text → Option (List Text)) → EntrypointPlan → Option (List Text)
command_of litestream plan =
    if text_eq plan.path litestream_binary then litestream plan.args else some plan.args

-- The value that getenv finds: that of the first entry of the key.
abbrev pub getenv : Text → List Text → Option Text
getenv k [] = none
getenv k (entry ∷ entries) = elim (cut entry) [
  | none ↦ getenv k entries
  | some (l, v) ↦ if text_eq l k then some v else getenv k entries
]

-- A key as the environment has them: without `=`.
abbrev pub IsKey : Text → Type 0
IsKey key = any (λ c. c == b'=') key ≡ false

abbrev pub HasKeys : Environment → Type 0
HasKeys env = All (λ entry. IsKey entry.0) env

cut_entry : (key value : Text) → IsKey key → cut (key ++ codes "=" ++ value) ≡ some (key, value)
unfolding cut
cut_entry [] value h = refl
cut_entry (c ∷ key) value h = ground (arith, cut_entry key value)

cut-IsKey : (s key value : Text) → cut s ≡ some (key, value) → IsKey key
unfolding cut
cut-IsKey [] key value h = absurd (cc)
cut-IsKey (c ∷ s) key value h = elim (Bool-cases (c == b'=')) [
  | inl eq ↦ ground arith
  | inr ne ↦ elim (Option-cases (cut s)) [
    | inl missing ↦ ground arith
    | inr ((k, v), is) ↦ ground (arith, cut-IsKey s k v is)
  ]
]

put-HasKeys :
    (key value : Text) (env : Environment) → IsKey key → HasKeys env → HasKeys (put key value env)
put-HasKeys key value [] k h = (k, tt)
put-HasKeys key value ((l, b) ∷ env) k h = ground (arith, put-HasKeys key value env)

put_entries-HasKeys :
    (entries : List Text) (env : Environment) → HasKeys env → HasKeys (put_entries entries env)
put_entries-HasKeys [] env h = h
put_entries-HasKeys (s ∷ entries) env h = elim (Option-cases (cut s)) [
  | inl missing ↦ ground (arith, put_entries-HasKeys entries env h)
  | inr ((k, v), is) ↦ ground (
    arith,
    put_entries-HasKeys entries (put k v env) (put-HasKeys k v env (cut-IsKey s k v is) h),
  )
]

copy-HasKeys :
    (env overrides : Environment) → HasKeys env → HasKeys overrides → HasKeys (copy env overrides)
copy-HasKeys env [] h k = h
copy-HasKeys env ((l, v) ∷ overrides) h k =
    copy-HasKeys (put l v env) overrides (put-HasKeys l v env k.0 h) k.1

getenv-entries_of :
    (k : Text) (env : Environment) → HasKeys env → getenv k (entries_of env) ≡ lookup k env
getenv-entries_of k [] h = refl
getenv-entries_of k ((l, v) ∷ env) h =
    ground (arith, cut_entry l v h.0, getenv-entries_of k env h.1)

-- The value of a key in the overrides, the last one winning, or else the other one.
abbrev pub overriding : Text → Environment → Option Text → Option Text
overriding k [] o = o
overriding k ((l, v) ∷ m) o = overriding k m (if text_eq l k then some v else o)

lookup-copy :
    (k : Text) (env overrides : Environment)
    → lookup k (copy env overrides) ≡ overriding k overrides (lookup k env)
lookup-copy k env [] = refl
lookup-copy k env ((l, v) ∷ overrides) =
    lookup-copy k (put l v env) overrides ∙ ap (overriding k overrides) (lookup-put k l v env)

-- In the environment that the process is given, a variable has the value of the overrides, or else
-- the one it had, for overrides whose keys hold no `=`.
pub getenv-merge_exec_environment :
    (k : Text) (base : List Text) (overrides : Environment)
    → HasKeys overrides
    → getenv k (merge_exec_environment base overrides)
      ≡ overriding k overrides (lookup k (load_environment base))
unfolding merge_exec_environment load_environment
getenv-merge_exec_environment k base overrides h =
    getenv-entries_of k (copy (put_entries base []) overrides)
      (copy-HasKeys (put_entries base []) overrides (put_entries-HasKeys base [] tt) h)
    ∙ lookup-copy k (put_entries base []) overrides

module _ (marshal : LitestreamConfig → Option (List ℕ)) where
  module _ (litestream : List Text → Option (List Text)) (runs : RunsExec litestream) where
    litestream_plan-command :
        (env : Environment) (args : List Text) (p : EntrypointPlan)
        → litestream_plan marshal env args ≡ valid p
        → command_of litestream p ≡ some (nsqlite_binary ∷ args)
    unfolding litestream_plan text_eq
    litestream_plan-command env args p h = ground (
      arith,
      runs p.config_path (shell_join (nsqlite_binary ∷ args)) (nsqlite_binary ∷ args)
          (shell_words-shell_join (nsqlite_binary ∷ args)),
    )

    -- Whatever plan is made, with Litestream or without, the command that runs in the end is
    -- NSQLite with the arguments of the container, each of them as it was given; this if
    -- Litestream, started by `replicate -config` with `-exec`, runs the words that a shell reads in
    -- the command, where it reads them without an expansion or an operator.
    pub build_entrypoint_plan-command :
        (env : Environment) (args : List Text) (p : EntrypointPlan)
        → build_entrypoint_plan marshal env args ≡ valid p
        → command_of litestream p ≡ some (nsqlite_binary ∷ args)
    unfolding build_entrypoint_plan text_eq
    build_entrypoint_plan-command env args p h = ground (arith, litestream_plan-command env args p)
