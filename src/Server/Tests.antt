-- ===== src/Server/Tests.antt =====
-- Runs of internal/server on the small environment of Db/Sample.
use nsqlite.Prelude.{
  ◌↔◌, refl, none, ℕ, ◌-◌, ◌<◌, ◌^◌, List, Option, trim_space, ◌≡◌, arith, true, false, [], ◌∷◌,
  map, some, codes, is_empty,
}
use nsqlite.Auth.Tokens.{admin}
use nsqlite.Auth.Requests.{RequestProps, granted}
use nsqlite.Db.Types.{Value, null, integer, text, blob, QueryResult, read}
use nsqlite.Stats.Defs.{new_db_stats}
use nsqlite.Db.Effect.{Rests, Effect, Ensures}
use nsqlite.Db.Steps.{IsCounted}
use nsqlite.Db.Sample.{engine, uuid_nonempty, idle_db}
use nsqlite.Server.Convert.{converted, sqlite_value_from_vdl, sqlite_value_to_vdl, val}
use nsqlite.Server.Query.{VdlQuery, plain, query_result_from_db}
use nsqlite.Server.Rpc.{json, typed, rpc_handler}
use nsqlite.Server.RpcEffect.{rpc_handler-Effect}
use nsqlite.Server.Http.{max_request_size, max_request_size-bounds}
use nsqlite.Server.Rqlite.{query_mode, execute_rqlite_queries, handle_rqlite}
use nsqlite.Server.Answer.{rqlite_values}
use nsqlite.Server.RoundTrip.{
  query_result_from_db-rows, rqlite_values-sqlite_value_to_vdl, json_of, with_blob_array,
}
use nsqlite.Server.Convert.{sqlite_params_from_vdl}
use nsqlite.Server.Request.{
  parsed, rqlite_hex_blob_string, quoted_hex, hex_decode_string, hex_value,
  rqlite_query_from_json_statement,
}
use nsqlite.Server.Base64.{encode_to_string, digit}
use nsqlite.Server.Parameters.{nameless, statement_of, params_reach_database}
use nsqlite.Server.Transaction.{IsRunOf, execute_rqlite_queries-Effect, handle_rqlite-Effect}

abbrev ann : RequestProps
ann = record { role = admin; principal = codes "ann" }

abbrev two_rows : QueryResult
two_rows = record {
  type = read;
  tx_id = [];
  last_insert_id = 0;
  rows_affected = 0;
  columns = codes "id" ∷ codes "data" ∷ [];
  types = codes "INTEGER" ∷ codes "BLOB" ∷ [];
  rows = (integer 1 ∷ blob (0 ∷ 255 ∷ 7 ∷ 64 ∷ []) ∷ []) ∷ (null ∷ text (codes "a") ∷ []) ∷ [];
}

query_result_from_db-rows_example :
    map (map sqlite_value_from_vdl) (val (query_result_from_db two_rows).rows)
    ≡ map (map converted) two_rows.rows
query_result_from_db-rows_example = query_result_from_db-rows two_rows (
  (tt, ((omega arith, (omega arith, (omega arith, (omega arith, tt)))), tt)),
  ((tt, (tt, tt)), tt),
)

rqlite_values-sqlite_value_to_vdl_example :
    rqlite_values (map (map sqlite_value_to_vdl) two_rows.rows) (with_blob_array true)
    ≡ map (map json_of) two_rows.rows
rqlite_values-sqlite_value_to_vdl_example = rqlite_values-sqlite_value_to_vdl true two_rows.rows (
  (tt, ((omega arith, (omega arith, (omega arith, (omega arith, tt)))), tt)),
  ((tt, (tt, tt)), tt),
)

idle_db_at_rest : Rests false false idle_db
idle_db_at_rest = ground arith

idle_db_in_range : IsCounted idle_db.stats
unfolding new_db_stats
idle_db_in_range = omega arith

-- Two statements, the second of them empty, which fails and rolls back.
execute_rqlite_queries-Effect_example :
    Ensures
      (is_empty idle_db.tx_id ≡ false)
      (λ rs t. Effect false false idle_db t × IsRunOf (plain (codes "SELECT 1") ∷ plain [] ∷ []) rs)
      (execute_rqlite_queries engine ann (plain (codes "SELECT 1") ∷ plain [] ∷ []) true idle_db)
execute_rqlite_queries-Effect_example =
    execute_rqlite_queries-Effect engine uuid_nonempty ann (plain (codes "SELECT 1"))
      (plain [] ∷ []) idle_db idle_db_at_rest idle_db_in_range

handle_rqlite-Effect_example :
    Ensures Unit
      (λ _ t. Effect false false idle_db t)
      (handle_rqlite engine query_mode
        (granted ann)
        (parsed (plain (codes "SELECT 1") ∷ []))
        false
        idle_db)
unfolding new_db_stats
handle_rqlite-Effect_example =
    handle_rqlite-Effect engine uuid_nonempty query_mode (granted ann)
      (parsed (plain (codes "SELECT 1") ∷ [])) false idle_db idle_db_at_rest idle_db_in_range
      (omega arith)

rpc_handler-Effect_example :
    Ensures Unit
      (λ _ t. Effect false false idle_db t)
      (rpc_handler engine
        (codes "Database")
        (codes "query")
        (granted ann)
        (json (typed (plain (codes "BEGIN") ∷ plain [] ∷ [])) (typed tt))
        idle_db)
unfolding new_db_stats
rpc_handler-Effect_example =
    rpc_handler-Effect engine uuid_nonempty (codes "Database") (codes "query") (granted ann)
      (json (typed (plain (codes "BEGIN") ∷ plain [] ∷ [])) (typed tt)) idle_db idle_db_at_rest
      idle_db_in_range (omega arith)

max_request_size-bounds_example :
    ((max_request_size 100 ≡ 104857600) × (max_request_size 100 < 2 ^ 63)) ↔ (100 < 2 ^ 43)
max_request_size-bounds_example = max_request_size-bounds 100 (omega arith) (omega arith)

abbrev no_float : ℕ → Option ℕ
no_float n = none

abbrev some_values : List Value
some_values = null ∷ text (codes "it's") ∷ integer (2 ^ 64 - 5) ∷ blob (0 ∷ 255 ∷ []) ∷ []

text_is_no_blob : rqlite_hex_blob_string (codes "it's") ≡ none
unfolding rqlite_hex_blob_string quoted_hex trim_space
text_is_no_blob = refl

hex_is_a_blob : rqlite_hex_blob_string (codes " x'00fF' ") ≡ some (codes "AP8=")
unfolding rqlite_hex_blob_string quoted_hex trim_space hex_decode_string hex_value encode_to_string
    digit
hex_is_a_blob = refl

params_reach_database_example :
    (q : VdlQuery) × (rqlite_query_from_json_statement
        (statement_of no_float (codes "SELECT ?") (integer 7 ∷ some_values))
      ≡ parsed q)
    × (q.query ≡ codes "SELECT ?")
    × (sqlite_params_from_vdl q.params ≡ converted (map nameless (integer 7 ∷ some_values)))
unfolding trim_space
params_reach_database_example =
    params_reach_database no_float (codes "SELECT ?") (integer 7) some_values refl
      (omega arith, (tt, (text_is_no_blob, (omega arith, ((omega arith, (omega arith, tt)), tt)))))
