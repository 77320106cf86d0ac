-- ===== src/Db/Query.antt =====
-- `DB.Query`, the idle monitor and the end of the database.
use nsqlite.Prelude.{
  ℕ, ◌-◌, Bool, true, false, not, ◌&&◌, [], ◌∷◌, Text, text_eq, is_empty, ltb, if◌then◌else◌,
}
use nsqlite.Authorizer.Defs.{admin}
use nsqlite.Stats.Defs.{inc_errors}
use nsqlite.Db.Types.{
  QueryType, write, Query, QueryResult, detect_query_type, close_write, close_read, tx_not_found,
  tx_not_match, failed_to, Result, ok, err, read_write_pool, read_only_pool, Engine,
}
use nsqlite.Db.State.{
  Db, done, M, ◌>>=◌, ◌>>◌, pure, gets, on_world, lock_tx_mu, unlock_tx_mu, lock_tx_op_mu,
  unlock_tx_op_mu, count, touch,
}
use nsqlite.Db.Classify.{classify_query}
use nsqlite.Db.Exec.{execute_classified_query, execute_rollback_query}

unfoldable pub validate_tx_id : {W : Type 0} → Text → Text → Db W → Result (Unit {0})
validate_tx_id [] tx_owner s = ok tt
validate_tx_id (c ∷ cs) tx_owner s =
    if is_empty s.tx_id
    then err tx_not_found
    else if not (text_eq (c ∷ cs) s.tx_id)
    then err tx_not_match
    else if not (is_empty tx_owner) && not (text_eq tx_owner s.tx_owner)
    then err tx_not_match
    else ok tt

module _ {W : Type 0} (e : Engine W) where
  unfoldable pub run_classified : Query → Result QueryType → M W (Result QueryResult)
  run_classified query (err x) = pure (err (failed_to detect_query_type x))
  run_classified query (ok type) = execute_classified_query e query type

  -- `queryWithType` after the validation; the second `touch` is deferred.
  unfoldable pub query_in_tx : Query → M W (Result QueryResult)
  query_in_tx query = do
    touch e
    t ← classify_query e query.query query.tx_id
    r ← run_classified query t
    touch e
    pure r

  -- `queryWithType`, which is called with a transaction ID only.
  unfoldable pub query_with_type : Query → M W (Result QueryResult)
  query_with_type query s = elim (validate_tx_id query.tx_id query.tx_owner s) [
    | err x ↦ done (err x) s
    | ok _ ↦ query_in_tx query s
  ]

  -- A write outside a transaction waits for the open one.
  unfoldable pub query_classified : Query → QueryType → M W (Result QueryResult)
  query_classified query write = do
    lock_tx_mu
    r ← execute_classified_query e query write
    unlock_tx_mu
    pure r
  query_classified query type = execute_classified_query e query type

  -- The second attempt, once no transaction is open.
  unfoldable pub query_again : Query → M W (Result QueryResult)
  query_again query = do
    lock_tx_mu
    t ← classify_query e query.query query.tx_id
    r ← run_classified query t
    unlock_tx_mu
    pure r

  -- The rest of `query` after the first classification.
  unfoldable pub query_outside : Query → Result QueryType → M W (Result QueryResult)
  query_outside query (ok type) s = query_classified query type s
  query_outside query (err x) s =
      if is_empty s.tx_id then done (err (failed_to detect_query_type x)) s else query_again query s

  unfoldable pub query_outside_tx : Query → M W (Result QueryResult)
  query_outside_tx query = do t ← classify_query e query.query query.tx_id; query_outside query t

  -- `query`, by whether the transaction ID is empty
  unfoldable pub query_by : Bool → Query → M W (Result QueryResult)
  query_by true query = query_outside_tx query
  query_by false query = do lock_tx_op_mu; r ← query_with_type query; unlock_tx_op_mu; pure r

  unfoldable pub query_locked : Query → M W (Result QueryResult)
  query_locked query = query_by (is_empty query.tx_id) query

  abbrev pub count_error : Result QueryResult → M W (Result QueryResult)
  count_error (ok q) = pure (ok q)
  count_error (err x) = do count e inc_errors; pure (err x)

  -- `Query`
  unfoldable pub query : Query → M W (Result QueryResult)
  query q = do r ← query_locked q; count_error r

  -- The rollback by the server itself; its result is ignored.
  unfoldable pub roll_back_if : Bool → Text → M W (Unit {0})
  roll_back_if true tx_id = do execute_rollback_query e tx_id admin; pure tt
  roll_back_if false tx_id = pure tt

  -- One tick of `txIdleMonitor`.
  unfoldable pub idle_tick : ℕ → M W (Unit {0})
  idle_tick timeout = do
    lock_tx_op_mu
    tx_id ← gets (λ s. s.tx_id)
    idle ← gets (λ s. e.now s.world - s.tx_last_used)
    roll_back_if (not (is_empty tx_id) && ltb timeout idle) tx_id
    unlock_tx_op_mu

  -- `Close`, after the monitor has ended.
  unfoldable pub close : M W (Result (Unit {0}))
  close = do
    lock_tx_op_mu
    tx_id ← gets (λ s. s.tx_id)
    roll_back_if (not (is_empty tx_id)) tx_id
    unlock_tx_op_mu
    r ← on_world (e.close_pool read_write_pool)
    elim r [
      | err x ↦ pure (err (failed_to close_write x))
      | ok _ ↦ do
        r' ← on_world (e.close_pool read_only_pool)
        elim r' [ err x ↦ pure (err (failed_to close_read x)) | ok _ ↦ pure (ok tt) ]
    ]
