-- ===== src/Server/Rqlite.antt =====
-- internal/server/rqlite.go: the execution of a rqlite request once it is authorized and read.
use nsqlite.Prelude.{Bool, true, false, List, [], ◌∷◌, none, some, Text, codes, if◌then◌else◌}
use nsqlite.Stats.Defs.{inc_http_requests, inc_queued_http_requests, dec_queued_http_requests}
use nsqlite.Auth.Tokens.{read_only}
use nsqlite.Auth.Requests.{RequestProps, Access, granted, refused, AuthError}
use nsqlite.Db.Types.{Engine}
use nsqlite.Db.State.{M, ◌>>=◌, ◌>>◌, pure, count, on_stats}
use nsqlite.Server.Request.{RequestFault, Parsed, parsed, malformed}
use nsqlite.Server.Query.{plain, VdlQuery, VdlQueryResult, execute_request_query, execute_queries}

pub data EndpointMode : Type 0 where
  query_mode execute_mode request_mode : EndpointMode

-- The answer to a request, or the error that the error handler turns into a status.
pub data Response {ℓ} (A : Type ℓ) : Type ℓ where
  answered : A → Response A
  unauthorized_or_forbidden : AuthError → Response A
  bad_rqlite_request : RequestFault → Response A

abbrev pub within : Text → VdlQuery → VdlQuery
within tx_id query = record query { tx_id = some tx_id }

abbrev pub has_failed : VdlQueryResult → Bool
has_failed r = elim r.error [ none ↦ false | some x ↦ true ]

abbrev pub props_of_mode : EndpointMode → RequestProps → RequestProps
props_of_mode query_mode props = record props { role = read_only }
props_of_mode _ props = props

module _ {W : Type 0} (e : Engine W) where
  unfoldable pub commit_tx : RequestProps → Text → M W (List VdlQueryResult)
  commit_tx props tx_id = do
    commit ← execute_request_query e props (within tx_id (plain (codes "COMMIT")))
    pure (if has_failed commit then commit ∷ [] else [])

  unfoldable pub roll_back_tx : RequestProps → Text → M W (List VdlQueryResult)
  roll_back_tx props tx_id = do
    execute_request_query e props (within tx_id (plain (codes "ROLLBACK")))
    pure []

  -- The loop over the statements of a transaction, with what follows it.
  unfoldable pub run_tx : RequestProps → Text → List VdlQuery → M W (List VdlQueryResult)
  run_tx props tx_id [] = commit_tx props tx_id
  run_tx props tx_id (query ∷ queries) = do
    result ← execute_request_query e props (within tx_id query)
    results ← (elim (has_failed result) [
      | true ↦ roll_back_tx props tx_id
      | false ↦ run_tx props tx_id queries
    ])
    pure (result ∷ results)

  -- After BEGIN.
  unfoldable pub after_begin :
      RequestProps → List VdlQuery → VdlQueryResult → M W (List VdlQueryResult)
  after_begin props queries begin = elim begin.error [
    | some x ↦ pure (begin ∷ [])
    | none ↦ elim begin.tx_id [ none ↦ pure (begin ∷ []) | some tx_id ↦ run_tx props tx_id queries ]
  ]

  unfoldable pub execute_rqlite_queries :
      RequestProps → List VdlQuery → Bool → M W (List VdlQueryResult)
  execute_rqlite_queries props queries false = execute_queries e props queries
  execute_rqlite_queries props [] true = execute_queries e props []
  execute_rqlite_queries props (query ∷ queries) true = do
    begin ← execute_request_query e props (plain (codes "BEGIN"))
    after_begin props (query ∷ queries) begin

  -- `handleRQLite` after `authorizeRQLiteRequest` and `rqliteQueriesFromRequest`.
  unfoldable pub handle_rqlite :
      EndpointMode → Access → Parsed (List VdlQuery) → Bool → M W (Response (List VdlQueryResult))
  handle_rqlite mode (refused x) queries transaction = pure (unauthorized_or_forbidden x)
  handle_rqlite mode (granted props) (malformed x) transaction = pure (bad_rqlite_request x)
  handle_rqlite mode (granted props) (parsed queries) transaction = do
    count e inc_http_requests
    on_stats inc_queued_http_requests
    results ← execute_rqlite_queries (props_of_mode mode props) queries transaction
    on_stats dec_queued_http_requests
    pure (answered results)
