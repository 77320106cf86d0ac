-- ===== src/Threads/Exec.antt =====
-- internal/db/db.go: the programs of the classification and of each kind of query. The use of a
-- connection is one access, and so is the reading of the clock with the store or the count that it
-- is for.
use nsqlite.Prelude.{ℕ, [], ◌∷◌, Option, none, some, Text, codes, is_empty, if◌then◌else◌}
use nsqlite.Authorizer.Defs.{AuthorizerRole}
use nsqlite.Stats.Defs.{
  DbStats, inc_reads, inc_writes, inc_begins, inc_commits, inc_rollbacks, inc_queued_begins,
  dec_queued_begins, inc_queued_writes, dec_queued_writes,
}
use nsqlite.Db.Types.{
  QueryType, unknown, read, write, begin, commit, rollback, Query, QueryResult,
  get_read_only_connection, get_read_write_connection, begin_transaction, commit_transaction,
  rollback_transaction, executing_write_query, executing_read_query, tx_within_tx, tx_id_required,
  unknown_query_type, failed_to, Result, ok, err, read_write_pool, read_only_pool, Engine,
}
use nsqlite.Db.State.{Db}
use nsqlite.Db.Classify.{classify_text, classify_on, use_read_write_conn}
use nsqlite.Db.Exec.{
  plain_result, write_result, read_result, run_on, run_plain, read_on_read_only_conn,
}
use nsqlite.Threads.Program.{
  tx_mu, write_mu, plain, on_read_write_conn, Program, ◌>>=◌, ◌>>◌, pure, acquire_mutex,
  release_mutex, store, call,
}

module _ {W : Type 0} (e : Engine W) where
  -- `db.DBStats.IncReads()` and the like
  abbrev pub count_on : (ℕ → DbStats → DbStats) → Db W → Db W
  count_on f s = record s { stats = f (e.now s.world) s.stats }

  abbrev pub touch_on : Db W → Db W
  touch_on s = record s { tx_last_used = e.now s.world }

  -- The classification by SQLite: outside a transaction on a read-only connection.
  unfoldable pub prepared_program : Text → Text → Program W (Result QueryType)
  prepared_program query [] =
      call plain (classify_on e read_only_pool get_read_only_connection query)
  prepared_program query (c ∷ cs) = do
    acquire_mutex write_mu
    r ←
        call (on_read_write_conn (c ∷ cs))
          (classify_on e read_write_pool get_read_write_connection query)
    release_mutex write_mu
    pure r

  unfoldable pub typed_program : Option QueryType → Text → Text → Program W (Result QueryType)
  typed_program (some type) query tx_id = pure (ok type)
  typed_program none query tx_id = prepared_program query tx_id

  unfoldable pub classify_program : Text → Text → Program W (Result QueryType)
  classify_program query tx_id = typed_program (classify_text query) query tx_id

  -- `withReadWriteConn`, for the transaction ID of the call.
  unfoldable pub conn_program :
      Text → AuthorizerRole → (W → Result QueryResult × W) → Program W (Result QueryResult)
  conn_program tx_id role fn = do
    acquire_mutex write_mu
    r ← call (on_read_write_conn tx_id) (use_read_write_conn e role fn)
    release_mutex write_mu
    pure r

  unfoldable pub finish_begin_program : Text → Result QueryResult → Program W (Result QueryResult)
  finish_begin_program owner (err x) = do
    release_mutex tx_mu
    pure (err (failed_to begin_transaction x))
  finish_begin_program owner (ok _) = do
    tx_id ← call plain e.new_uuid
    store (λ s. record s { tx_id = tx_id })
    store (λ s. record s { tx_owner = owner })
    store touch_on
    store (count_on inc_begins)
    pure (ok (record (plain_result begin) { tx_id = tx_id }))

  unfoldable pub begin_program : Text → AuthorizerRole → Text → Program W (Result QueryResult)
  begin_program (c ∷ cs) role owner = pure (err tx_within_tx)
  begin_program [] role owner = do
    store (λ s. record s { stats = inc_queued_begins s.stats })
    acquire_mutex tx_mu
    r ← conn_program [] role (run_plain e (codes "BEGIN TRANSACTION"))
    q ← finish_begin_program owner r
    store (λ s. record s { stats = dec_queued_begins s.stats })
    pure q

  unfoldable pub finish_commit_program : Result QueryResult → Program W (Result QueryResult)
  finish_commit_program (err x) = pure (err (failed_to commit_transaction x))
  finish_commit_program (ok _) = do
    store (λ s. record s { tx_id = [] })
    store (λ s. record s { tx_owner = [] })
    store touch_on
    store (count_on inc_commits)
    release_mutex tx_mu
    pure (ok (plain_result commit))

  unfoldable pub commit_program : Text → AuthorizerRole → Program W (Result QueryResult)
  commit_program [] role = pure (err tx_id_required)
  commit_program (c ∷ cs) role = do
    r ← conn_program (c ∷ cs) role (run_plain e (codes "COMMIT"))
    finish_commit_program r

  unfoldable pub finish_rollback_program : Result QueryResult → Program W (Result QueryResult)
  finish_rollback_program (err x) = pure (err (failed_to rollback_transaction x))
  finish_rollback_program (ok _) = do
    store (λ s. record s { tx_id = [] })
    store (λ s. record s { tx_owner = [] })
    store touch_on
    store (count_on inc_rollbacks)
    release_mutex tx_mu
    pure (ok (plain_result rollback))

  unfoldable pub rollback_program : Text → AuthorizerRole → Program W (Result QueryResult)
  rollback_program [] role = pure (err tx_id_required)
  rollback_program (c ∷ cs) role = do
    r ← conn_program (c ∷ cs) role (run_plain e (codes "ROLLBACK"))
    finish_rollback_program r

  -- A count on success only.
  unfoldable pub finish_program :
      (ℕ → DbStats → DbStats) → Result QueryResult → Program W (Result QueryResult)
  finish_program inc (err x) = pure (err x)
  finish_program inc (ok q) = do store (count_on inc); pure (ok q)

  unfoldable pub write_program : Query → Program W (Result QueryResult)
  write_program q = do
    store (λ s. record s { stats = inc_queued_writes s.stats })
    r ←
        conn_program q.tx_id q.role
          (run_on e read_write_pool q.query q.params executing_write_query write_result)
    a ← finish_program inc_writes r
    store (λ s. record s { stats = dec_queued_writes s.stats })
    pure a

  unfoldable pub read_program : Query → Program W (Result QueryResult)
  read_program q =
      if is_empty q.tx_id
      then (do r ← call plain (read_on_read_only_conn e q); finish_program inc_reads r)
      else (do
        r ←
            conn_program q.tx_id q.role
              (run_on e read_write_pool q.query q.params executing_read_query read_result)
        finish_program inc_reads r)

  unfoldable pub execute_program : Query → QueryType → Program W (Result QueryResult)
  execute_program q begin = begin_program q.tx_id q.role q.tx_owner
  execute_program q commit = commit_program q.tx_id q.role
  execute_program q rollback = rollback_program q.tx_id q.role
  execute_program q read = read_program q
  execute_program q write = write_program q
  execute_program q unknown = pure (err (unknown_query_type unknown))
