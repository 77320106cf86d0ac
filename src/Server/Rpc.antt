-- ===== src/Server/Rpc.antt =====
-- internal/server/rpc.go, health.go, stats.go and the procedures that `newRPCServer` registers. The
-- generated code of internal/vdl reads the input of a procedure by its names and writes its output.
use nsqlite.Prelude.{Bool, true, false, List, [], Option, none, some, Text, codes, if◌then◌else◌}
use nsqlite.Authorizer.Defs.{admin}
use nsqlite.Stats.Defs.{inc_http_requests, inc_queued_http_requests, dec_queued_http_requests}
use nsqlite.Stats.Load.{load_stats}
use nsqlite.Auth.Requests.{AuthError, RequestProps, Access, granted, refused, is_call}
use nsqlite.Db.Types.{Query, QueryResult, Result, ok, err, Engine}
use nsqlite.Db.State.{M, ◌>>=◌, ◌>>◌, pure, gets, on_stats, count}
use nsqlite.Db.Query.{query}
use nsqlite.Server.Status.{VdlAuthRole, VdlStats, auth_role_to_vdl, loaded_stats_to_vdl}
use nsqlite.Server.Query.{VdlQuery, VdlQueryResult, execute_queries}

pub data Procedure : Type 0 where
  database_query system_health system_session system_status : Procedure

-- The procedures by their names, as `newRPCServer` registers them.
unfoldable pub procedure : Text → Text → Option Procedure
procedure rpc_name operation_name =
    if is_call rpc_name operation_name (codes "Database") (codes "query")
    then some database_query
    else if is_call rpc_name operation_name (codes "System") (codes "health")
    then some system_health
    else if is_call rpc_name operation_name (codes "System") (codes "session")
    then some system_session
    else if is_call rpc_name operation_name (codes "System") (codes "status")
    then some system_status
    else none

-- `SystemHealthOutput`
pub record Health : Type 0 where
  pub healthy : Bool
  pub database : Bool
  pub message : Text

-- What a deserializer of the generated code gives: an input of its type, or its error.
pub data Deserialized (A : Type 0) : Type 0 where
  typed : A → Deserialized A
  ill_typed : Text → Deserialized A

-- The body of a request: not JSON, or JSON as the deserializers of Database.query and of the
-- procedures of System, which have no fields, read it.
pub data RpcBody : Type 0 where
  not_json : RpcBody
  json : Deserialized (List VdlQuery) → Deserialized (Unit {0}) → RpcBody

pub data RpcAnswer : Type 0 where
  queried : List VdlQueryResult → RpcAnswer
  health_is : Health → RpcAnswer
  session_is : VdlAuthRole → RpcAnswer
  status_is : VdlStats → RpcAnswer
  denied : AuthError → RpcAnswer
  invalid_body unknown_procedure : RpcAnswer
  invalid_input : Text → RpcAnswer

-- The query of the health check
abbrev pub health_query : Query
health_query = record {
  tx_id = [];
  tx_owner = [];
  query = codes "SELECT 1";
  params = [];
  role = admin;
}

unfoldable pub health_of : Result QueryResult → Health
health_of (err x) = record {
  healthy = false;
  database = false;
  message = codes "Database unavailable";
}
health_of (ok q) = record { healthy = true; database = true; message = codes "OK" }

module _ {W : Type 0} where
  -- The handler of a procedure without fields, behind its deserializer.
  unfoldable pub handle_typed : Deserialized (Unit {0}) → M W RpcAnswer → M W RpcAnswer
  handle_typed (typed input) handler = handler
  handle_typed (ill_typed x) handler = pure (invalid_input x)

module _ {W : Type 0} (e : Engine W) where
  unfoldable pub system_health_proc : M W Health
  unfolding health_of
  system_health_proc = do r ← query e health_query; pure (health_of r)

  -- `systemStatusProc`, without the name and the version
  unfoldable pub system_status_proc : M W VdlStats
  system_status_proc =
      gets (λ s. loaded_stats_to_vdl (e.now s.world) (load_stats (e.now s.world) s.stats))

  -- `handleRequest`: the body is decoded before the procedure is looked up.
  unfoldable pub call_procedure : RequestProps → RpcBody → Option Procedure → M W RpcAnswer
  unfolding handle_typed
  call_procedure props not_json p = pure invalid_body
  call_procedure props (json queries input) none = pure unknown_procedure
  call_procedure props (json (ill_typed x) input) (some database_query) = pure (invalid_input x)
  call_procedure props (json (typed queries) input) (some database_query) = do
    results ← execute_queries e props queries
    pure (queried results)
  call_procedure props (json queries input) (some system_health) =
      handle_typed input (do health ← system_health_proc; pure (health_is health))
  call_procedure props (json queries input) (some system_session) =
      handle_typed input (pure (session_is (auth_role_to_vdl props.role)))
  call_procedure props (json queries input) (some system_status) =
      handle_typed input (do loaded ← system_status_proc; pure (status_is loaded))

  -- The count of the HTTP requests, with the deferred `DecQueuedHTTPRequests`.
  unfoldable pub counted : Bool → M W RpcAnswer → M W RpcAnswer
  counted false m = m
  counted true m = do
    count e inc_http_requests
    on_stats inc_queued_http_requests
    answer ← m
    on_stats dec_queued_http_requests
    pure answer

  -- `rpcHandler` after `authorizeRPCRequest`
  unfoldable pub rpc_handler : Text → Text → Access → RpcBody → M W RpcAnswer
  rpc_handler rpc_name operation_name (refused x) input = pure (denied x)
  rpc_handler rpc_name operation_name (granted props) input =
      counted (is_call rpc_name operation_name (codes "Database") (codes "query"))
        (call_procedure props input (procedure rpc_name operation_name))
