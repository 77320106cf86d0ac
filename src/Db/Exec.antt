-- ===== src/Db/Exec.antt =====
-- The execution of a classified query.
use nsqlite.Prelude.{List, [], ◌∷◌, Text, codes, is_empty, if◌then◌else◌}
use nsqlite.Authorizer.Defs.{AuthorizerRole}
use nsqlite.Stats.Defs.{
  inc_reads, inc_writes, inc_begins, inc_commits, inc_rollbacks, inc_queued_begins,
  dec_queued_begins, inc_queued_writes, dec_queued_writes,
}
use nsqlite.Db.Types.{
  SqliteResult, QueryType, unknown, read, write, begin, commit, rollback, Query, QueryParam,
  QueryResult, Step, get_read_only_connection, set_read_role, begin_transaction, commit_transaction,
  rollback_transaction, executing_write_query, executing_read_query, tx_within_tx, tx_id_required,
  unknown_query_type, failed_to, Result, ok, err, Pool, read_write_pool, read_only_pool, Engine,
}
use nsqlite.Db.State.{
  M, ◌>>=◌, ◌>>◌, pure, modify, on_world, on_stats, lock_tx_mu, unlock_tx_mu, count, touch,
}
use nsqlite.Db.Classify.{get_raw_conn, with_read_write_conn}

-- `QueryResult{}` with a type
abbrev pub plain_result : QueryType → QueryResult
plain_result type = record {
  type = type;
  tx_id = [];
  last_insert_id = 0;
  rows_affected = 0;
  columns = [];
  types = [];
  rows = [];
}

abbrev pub write_result : SqliteResult → QueryResult
write_result res = record {
  type = write;
  tx_id = [];
  last_insert_id = res.last_insert_id;
  rows_affected = res.rows_affected;
  columns = res.columns;
  types = res.types;
  rows = res.rows;
}

abbrev pub read_result : SqliteResult → QueryResult
read_result res = record {
  type = read;
  tx_id = [];
  last_insert_id = 0;
  rows_affected = 0;
  columns = res.columns;
  types = res.types;
  rows = res.rows;
}

module _ {W : Type 0} (e : Engine W) where
  -- The callbacks that the functions below hand to `withReadWriteConn`.
  abbrev pub run_on :
      Pool
      → Text
      → List QueryParam
      → Step
      → (SqliteResult → QueryResult)
      → W
      → Result QueryResult × W
  run_on pool sql params step result w =
      let (r, w') = e.conn_query pool sql params w in
      elim r [ err x ↦ (err (failed_to step x), w') | ok res ↦ (ok (result res), w') ]

  abbrev pub run_plain : Text → W → Result QueryResult × W
  run_plain sql w =
      let (r, w') = e.conn_query read_write_pool sql [] w in
      elim r [ err x ↦ (err x, w') | ok res ↦ (ok (plain_result unknown), w') ]

  -- After BEGIN: `txMu` stays locked until the commit or the rollback.
  unfoldable pub finish_begin : Text → Result QueryResult → M W (Result QueryResult)
  finish_begin query_tx_owner (err x) = do unlock_tx_mu; pure (err (failed_to begin_transaction x))
  finish_begin query_tx_owner (ok _) = do
    tx_id ← on_world e.new_uuid
    modify (λ s. record s { tx_id = tx_id; tx_owner = query_tx_owner })
    touch e
    count e inc_begins
    pure (ok (record (plain_result begin) { tx_id = tx_id }))

  unfoldable pub execute_begin_query : Text → AuthorizerRole → Text → M W (Result QueryResult)
  execute_begin_query (c ∷ cs) role query_tx_owner = pure (err tx_within_tx)
  execute_begin_query [] role query_tx_owner = do
    on_stats inc_queued_begins
    lock_tx_mu
    r ← with_read_write_conn e role (run_plain (codes "BEGIN TRANSACTION"))
    q ← finish_begin query_tx_owner r
    on_stats dec_queued_begins
    pure q

  unfoldable pub finish_commit : Result QueryResult → M W (Result QueryResult)
  finish_commit (err x) = pure (err (failed_to commit_transaction x))
  finish_commit (ok _) = do
    modify (λ s. record s { tx_id = []; tx_owner = [] })
    touch e
    count e inc_commits
    unlock_tx_mu
    pure (ok (plain_result commit))

  unfoldable pub execute_commit_query : Text → AuthorizerRole → M W (Result QueryResult)
  execute_commit_query [] role = pure (err tx_id_required)
  execute_commit_query (c ∷ cs) role = do
    r ← with_read_write_conn e role (run_plain (codes "COMMIT"))
    finish_commit r

  unfoldable pub finish_rollback : Result QueryResult → M W (Result QueryResult)
  finish_rollback (err x) = pure (err (failed_to rollback_transaction x))
  finish_rollback (ok _) = do
    modify (λ s. record s { tx_id = []; tx_owner = [] })
    touch e
    count e inc_rollbacks
    unlock_tx_mu
    pure (ok (plain_result rollback))

  unfoldable pub execute_rollback_query : Text → AuthorizerRole → M W (Result QueryResult)
  execute_rollback_query [] role = pure (err tx_id_required)
  execute_rollback_query (c ∷ cs) role = do
    r ← with_read_write_conn e role (run_plain (codes "ROLLBACK"))
    finish_rollback r

  -- `IncWrites` and `IncReads`, on success only.
  unfoldable pub finish_write : Result QueryResult → M W (Result QueryResult)
  finish_write (err x) = pure (err x)
  finish_write (ok q) = do count e inc_writes; pure (ok q)

  unfoldable pub finish_read : Result QueryResult → M W (Result QueryResult)
  finish_read (err x) = pure (err x)
  finish_read (ok q) = do count e inc_reads; pure (ok q)

  unfoldable pub execute_write_query : Query → M W (Result QueryResult)
  execute_write_query query = do
    on_stats inc_queued_writes
    r ←
        with_read_write_conn e query.role
          (run_on read_write_pool query.query query.params executing_write_query write_result)
    q ← finish_write r
    on_stats dec_queued_writes
    pure q

  -- The read-only connection of a query outside a transaction.
  unfoldable pub read_on_read_only_conn : Query → W → Result QueryResult × W
  read_on_read_only_conn query w =
      let (r, w') = get_raw_conn e read_only_pool w in
      elim r [
        | err x ↦ (err (failed_to get_read_only_connection x), w')
        | ok _ ↦
            let (r', w'') = e.set_authorizer_role read_only_pool query.role w' in
            elim r' [
              | err x ↦ (err (failed_to set_read_role x), e.close_conn read_only_pool w'')
              | ok _ ↦
                  let (q, w3) =
                    run_on read_only_pool query.query query.params executing_read_query read_result
                      w'' in
                  (q, e.close_conn read_only_pool w3)
            ]
      ]

  unfoldable pub execute_read_query : Query → M W (Result QueryResult)
  execute_read_query query =
      if is_empty query.tx_id
      then (do r ← on_world (read_on_read_only_conn query); finish_read r)
      else (do
        r ←
            with_read_write_conn e query.role
              (run_on read_write_pool query.query query.params executing_read_query read_result)
        finish_read r)

  unfoldable pub execute_classified_query : Query → QueryType → M W (Result QueryResult)
  execute_classified_query query begin = execute_begin_query query.tx_id query.role query.tx_owner
  execute_classified_query query commit = execute_commit_query query.tx_id query.role
  execute_classified_query query rollback = execute_rollback_query query.tx_id query.role
  execute_classified_query query read = execute_read_query query
  execute_classified_query query write = execute_write_query query
  execute_classified_query query unknown = pure (err (unknown_query_type unknown))
