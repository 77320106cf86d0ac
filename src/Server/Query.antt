-- ===== src/Server/Query.antt =====
-- internal/server/query.go: the queries of one request, in their order, and `queryResultFromDB`
-- of internal/server/query_convert.go. The times of the answers are left out.
use nsqlite.Prelude.{ℕ, Bool, true, false, List, [], ◌∷◌, map, Option, none, some, Text, is_empty}
use nsqlite.Auth.Requests.{RequestProps}
use nsqlite.Db.Types
use nsqlite.Db.Query
use nsqlite.Db.Types.{Engine, Error, Result, ok, err, QueryType}
use nsqlite.Db.State.{M, ◌>>=◌, pure}
use nsqlite.Server.Convert.{
  SqliteValue, VdlQueryParam, StorageClass, ResultType, error_result, ConvertError, Converted,
  converted, rejected, authorizer_role_for_auth_role, sqlite_value_to_vdl, val,
  sqlite_params_from_vdl, query_result_type_from_db, sqlite_storage_class_from_string,
}

-- `vdl.Query`
pub record VdlQuery : Type 0 where
  pub tx_id : Option Text
  pub query : Text
  pub params : Option (List VdlQueryParam)

abbrev pub plain : Text → VdlQuery
plain sql = record { tx_id = none; query = sql; params = none }

-- The error message of an answer, by what it says.
pub data RequestError : Type 0 where
  empty_query : RequestError
  bad_params : ConvertError → RequestError
  query_failed : Error → RequestError

-- `vdl.QueryResult`
pub record VdlQueryResult : Type 0 where
  pub type : ResultType
  pub error : Option RequestError
  pub tx_id : Option Text
  pub last_insert_id : Option ℕ
  pub rows_affected : Option ℕ
  pub columns : Option (List Text)
  pub types : Option (List StorageClass)
  pub rows : Option (List (List SqliteValue))

abbrev pub unless_empty {ℓ κ} : {A : Type ℓ} {B : Type κ} → (List A → B) → List A → Option B
unless_empty f [] = none
unless_empty f (x ∷ xs) = some (f (x ∷ xs))

-- A field that only the result of a write has.
abbrev pub if_write : QueryType → ℕ → Option ℕ
if_write Types.write n = some n
if_write _ n = none

unfoldable pub query_result_from_db : Types.QueryResult → VdlQueryResult
query_result_from_db r = record {
  type = query_result_type_from_db r.type;
  error = none;
  tx_id = unless_empty (λ s. s) r.tx_id;
  last_insert_id = if_write r.type r.last_insert_id;
  rows_affected = if_write r.type r.rows_affected;
  columns = unless_empty (λ s. s) r.columns;
  types = unless_empty (map sqlite_storage_class_from_string) r.types;
  rows = unless_empty (map (map sqlite_value_to_vdl)) r.rows;
}

abbrev pub error_answer : RequestError → VdlQueryResult
error_answer x = record {
  type = error_result;
  error = some x;
  tx_id = none;
  last_insert_id = none;
  rows_affected = none;
  columns = none;
  types = none;
  rows = none;
}

abbrev pub answer : Result Types.QueryResult → VdlQueryResult
answer (ok r) = query_result_from_db r
answer (err x) = error_answer (query_failed x)

module _ {W : Type 0} (e : Engine W) where
  abbrev pub db_query : RequestProps → VdlQuery → List Types.QueryParam → Types.Query
  db_query props query params = record {
    tx_id = val query.tx_id;
    tx_owner = props.principal;
    query = query.query;
    params = params;
    role = authorizer_role_for_auth_role props.role;
  }

  unfoldable pub query_with_params :
      RequestProps → VdlQuery → Converted (List Types.QueryParam) → M W VdlQueryResult
  query_with_params props query (rejected x) = pure (error_answer (bad_params x))
  query_with_params props query (converted params) = do
    r ← Query.query e (db_query props query params)
    pure (answer r)

  abbrev pub query_unless : Bool → RequestProps → VdlQuery → M W VdlQueryResult
  query_unless true props query = pure (error_answer empty_query)
  query_unless false props query =
      query_with_params props query (sqlite_params_from_vdl query.params)

  unfoldable pub execute_request_query : RequestProps → VdlQuery → M W VdlQueryResult
  execute_request_query props query = query_unless (is_empty query.query) props query

  unfoldable pub execute_queries : RequestProps → List VdlQuery → M W (List VdlQueryResult)
  execute_queries props [] = pure []
  execute_queries props (query ∷ queries) = do
    result ← execute_request_query props query
    results ← execute_queries props queries
    pure (result ∷ results)
