-- ===== src/Db/Classify.antt =====
-- How a query is classified, and the use of a raw connection.
use nsqlite.Prelude.{
  ◌||◌, [], Option, none, some, Text, codes, has_prefix, to_lower, trim_space, is_empty,
  if◌then◌else◌,
}
use nsqlite.Authorizer.Defs.{AuthorizerRole, admin}
use nsqlite.Db.Types.{
  QueryType, read, write, begin, commit, rollback, QueryResult, Step, get_pool_connection,
  get_raw_connection, cast_connection, get_read_only_connection, get_read_write_connection,
  get_read_write_connection_from_pool, set_classification_role, set_write_role, prepare_statement,
  fault, failed_to, Result, ok, err, Pool, read_write_pool, read_only_pool, Engine,
}
use nsqlite.Db.State.{M, ◌>>=◌, ◌>>◌, pure, on_world, lock_write_mu, unlock_write_mu}

-- The kinds that the text alone shows; `none` goes on to SQLite.
unfoldable pub classify_text : Text → Option QueryType
unfolding has_prefix to_lower trim_space
classify_text query =
    let trimmed = to_lower (trim_space query) in
    if has_prefix trimmed (codes "begin")
    then some begin
    else if has_prefix trimmed (codes "commit")
    then some commit
    else if has_prefix trimmed (codes "rollback") || has_prefix trimmed (codes "end transaction")
    then some rollback
    else none

module _ {W : Type 0} (e : Engine W) where
  -- `getRawConn`
  unfoldable pub get_raw_conn : Pool → W → Result (Unit {0}) × W
  get_raw_conn pool w =
      let (r, w') = e.pool_conn pool w in
      elim r [
        | err x ↦ (err (failed_to get_pool_connection x), w')
        | ok _ ↦ if e.is_driver_conn pool w' then (ok tt, w') else (
          err (failed_to get_raw_connection (failed_to cast_connection (fault []))),
          e.close_conn pool w',
        )
      ]

  -- `classifyPreparedQuery`
  unfoldable pub classify_prepared_query : Pool → Text → W → Result QueryType × W
  classify_prepared_query pool query w =
      let (r, w') = e.set_authorizer_role pool admin w in
      elim r [
        | err x ↦ (err (failed_to set_classification_role x), w')
        | ok _ ↦
            let (r', w'') = e.prepare_read_only pool query w' in
            elim r' [
              | err x ↦ (err (failed_to prepare_statement x), w'')
              | ok read_only ↦ (ok (if read_only then read else write), w'')
            ]
      ]

  -- The body of `classifyQueryOnReadOnlyConn` and of `classifyQueryOnReadWriteConn`.
  unfoldable pub classify_on : Pool → Step → Text → W → Result QueryType × W
  classify_on pool step query w =
      let (r, w') = get_raw_conn pool w in
      elim r [
        | err x ↦ (err (failed_to step x), w')
        | ok _ ↦ let (t, w'') = classify_prepared_query pool query w' in (t, e.close_conn pool w'')
      ]

  unfoldable pub classify_query_on_read_only_conn : Text → M W (Result QueryType)
  classify_query_on_read_only_conn query =
      on_world (classify_on read_only_pool get_read_only_connection query)

  unfoldable pub classify_query_on_read_write_conn : Text → M W (Result QueryType)
  classify_query_on_read_write_conn query = do
    lock_write_mu
    r ← on_world (classify_on read_write_pool get_read_write_connection query)
    unlock_write_mu
    pure r

  unfoldable pub classify_query : Text → Text → M W (Result QueryType)
  classify_query query tx_id = elim (classify_text query) [
    | some type ↦ pure (ok type)
    | none ↦
        if is_empty tx_id
        then classify_query_on_read_only_conn query
        else classify_query_on_read_write_conn query
  ]

  -- The part of `withReadWriteConn` that runs under `writeMu`.
  unfoldable pub use_read_write_conn :
      AuthorizerRole → (W → Result QueryResult × W) → W → Result QueryResult × W
  use_read_write_conn role fn w =
      let (r, w') = get_raw_conn read_write_pool w in
      elim r [
        | err x ↦ (err (failed_to get_read_write_connection_from_pool x), w')
        | ok _ ↦
            let (r', w'') = e.set_authorizer_role read_write_pool role w' in
            elim r' [
              | err x ↦ (err (failed_to set_write_role x), e.close_conn read_write_pool w'')
              | ok _ ↦ let (q, w3) = fn w'' in (q, e.close_conn read_write_pool w3)
            ]
      ]

  unfoldable pub with_read_write_conn :
      AuthorizerRole → (W → Result QueryResult × W) → M W (Result QueryResult)
  with_read_write_conn role fn = do
    lock_write_mu
    r ← on_world (use_read_write_conn role fn)
    unlock_write_mu
    pure r
