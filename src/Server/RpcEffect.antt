-- ===== src/Server/RpcEffect.antt =====
-- What a RPC request does to the state of the database.
use nsqlite.Prelude.{
  ◌<◌, ◌≡◌, Bool, true, false, Option, none, some, Text, codes, is_empty, arith, int64_mod,
}
use nsqlite.Auth.Requests.{RequestProps, Access, granted, refused, is_call}
use nsqlite.Db.Types.{Engine}
use nsqlite.Db.State.{◌>>=◌, pure, M, Db, Outcome, done, waits, fatal}
use nsqlite.Db.Query.{query}
use nsqlite.Db.Effect.{Rests, Effect, Ensures, MayWait}
use nsqlite.Db.Steps.{IsCounted}
use nsqlite.Db.Invariant.{query-Effect}
use nsqlite.Server.Query.{execute_queries}
use nsqlite.Server.Leaves.{Leaves, Leaves-weaken, Effect-refl, execute_queries-Leaves}
use nsqlite.Server.Transaction.{arrived, arrived-IsCounted, answer_outcome-Effect}
use nsqlite.Server.Rpc.{
  RpcBody, not_json, json, Deserialized, typed, ill_typed, handle_typed, RpcAnswer, Procedure,
  database_query, system_health, system_session, system_status, procedure, queried, health_is,
  health_query, health_of, system_health_proc, system_status_proc, call_procedure, counted,
  rpc_handler,
}

module _ {W : Type 0} (e : Engine W)
    (uuid_nonempty : (w : W) → is_empty (e.new_uuid w).0 ≡ false) where
  -- An outcome whose answer is mapped.
  mapped-Leaves :
      {A B : Type 0} (May : Type 0) (f : A → B) (s : Db W) (o : Outcome W A)
      → Ensures May (λ _ t. Effect false false s t) o
      → Leaves Unit
          (λ (_ : B). Unit)
          s
          (elim o [ done a t ↦ done (f a) t | waits t ↦ waits t | fatal ↦ fatal ])
  mapped-Leaves May f s (done a t) h = (h, tt)
  mapped-Leaves May f s (waits t) h = tt
  mapped-Leaves May f s fatal h = h

  weak-Ensures :
      {A : Type 0} (May : Type 0) (s : Db W) (o : Outcome W A)
      → Leaves May (λ _. Unit) s o
      → Ensures May (λ _ t. Effect false false s t) o
  weak-Ensures May s (done a t) h = h.0
  weak-Ensures May s (waits t) h = h
  weak-Ensures May s fatal h = h

  handle_typed-Leaves :
      (input : Deserialized (Unit {0})) (s : Db W) (m : M W RpcAnswer)
      → Rests false false s
      → Leaves Unit (λ _. Unit) s (m s)
      → Leaves Unit (λ _. Unit) s (handle_typed input m s)
  unfolding handle_typed
  handle_typed-Leaves (typed input) s m h k = k
  handle_typed-Leaves (ill_typed x) s m h k = (Effect-refl s h, tt)

  system_health-Leaves :
      (s : Db W)
      → Rests false false s
      → IsCounted s.stats
      → Leaves Unit (λ _. Unit) s ((do health ← system_health_proc e; pure (health_is health)) s)
  unfolding system_health_proc
  system_health-Leaves s h n = mapped-Leaves Unit health_is s (system_health_proc e s) (
      weak-Ensures Unit s (system_health_proc e s) (
        mapped-Leaves (MayWait health_query s) health_of s (query e health_query s)
          (query-Effect e uuid_nonempty health_query s h n)))

  call_procedure-Leaves :
      (props : RequestProps) (input : RpcBody) (p : Option Procedure) (s : Db W)
      → Rests false false s
      → IsCounted s.stats
      → Leaves Unit (λ _. Unit) s (call_procedure e props input p s)
  unfolding call_procedure system_status_proc
  call_procedure-Leaves props not_json p s h n = (Effect-refl s h, tt)
  call_procedure-Leaves props (json q i) none s h n = (Effect-refl s h, tt)
  call_procedure-Leaves props (json (ill_typed x) i) (some database_query) s h n =
      (Effect-refl s h, tt)
  call_procedure-Leaves props (json (typed qs) i) (some database_query) s h n =
      mapped-Leaves Unit queried s (execute_queries e props qs s) (
        weak-Ensures Unit s (execute_queries e props qs s) (
          Leaves-weaken s (λ x. x) (λ rs k. tt) (execute_queries e props qs s)
            (execute_queries-Leaves e uuid_nonempty props qs s h n)))
  call_procedure-Leaves props (json q i) (some system_health) s h n =
      handle_typed-Leaves i s _ h (system_health-Leaves s h n)
  call_procedure-Leaves props (json q i) (some system_session) s h n =
      handle_typed-Leaves i s _ h (Effect-refl s h, tt)
  call_procedure-Leaves props (json q i) (some system_status) s h n =
      handle_typed-Leaves i s _ h (Effect-refl s h, tt)

  counted-Effect :
      (b : Bool) (props : RequestProps) (input : RpcBody) (p : Option Procedure) (s : Db W)
      → Rests false false s
      → IsCounted s.stats
      → s.stats.queued_http_requests < int64_mod
      → Ensures Unit
          (λ _ t. Effect false false s t)
          (counted e b (call_procedure e props input p) s)
  unfolding counted
  counted-Effect false props input p s h n c =
      weak-Ensures Unit s (call_procedure e props input p s)
        (call_procedure-Leaves props input p s h n)
  counted-Effect true props input p s h n c =
      let now = e.now s.world in
      answer_outcome-Effect e uuid_nonempty (λ a. a) s now
        (call_procedure e props input p (arrived e uuid_nonempty now s)) c
        (call_procedure-Leaves props input p (arrived e uuid_nonempty now s) (ground arith)
          (arrived-IsCounted e uuid_nonempty now s n))

  -- From a state of rest whose counters are in range, a RPC request, whatever it names, whatever
  -- access it has and whatever it carries, leaves a state of rest when it ends, meets no fatal
  -- error of a mutex, and keeps the queue lengths, that of the HTTP requests included, and the
  -- account of transactions; this if the generated transaction IDs are not empty.
  pub rpc_handler-Effect :
      (rpc_name operation_name : Text) (access : Access) (input : RpcBody) (s : Db W)
      → Rests false false s
      → IsCounted s.stats
      → s.stats.queued_http_requests < int64_mod
      → Ensures Unit
          (λ _ t. Effect false false s t)
          (rpc_handler e rpc_name operation_name access input s)
  unfolding rpc_handler
  rpc_handler-Effect rpc_name operation_name (refused x) input s h n c = Effect-refl s h
  rpc_handler-Effect rpc_name operation_name (granted props) input s h n c =
      counted-Effect (is_call rpc_name operation_name (codes "Database") (codes "query")) props
        input (procedure rpc_name operation_name) s h n c
