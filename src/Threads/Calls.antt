-- ===== src/Threads/Calls.antt =====
-- internal/db/db.go: the programs of its calls. The use of a connection is one access, and so are
-- the reading of the clock with the store or the count that it is for.
use nsqlite.Prelude.{ℕ, ◌-◌, [], ◌∷◌, Text, text_eq, is_empty, ltb, if◌then◌else◌}
use nsqlite.Authorizer.Defs.{admin}
use nsqlite.Stats.Defs.{inc_errors}
use nsqlite.Db.Types.{
  QueryType, write, Query, QueryResult, Error, detect_query_type, close_write, close_read,
  tx_not_found, tx_not_match, failed_to, Result, ok, err, read_write_pool, read_only_pool, Engine,
}
use nsqlite.Threads.Program.{
  tx_mu, tx_op_mu, plain, Program, ◌>>=◌, ◌>>◌, pure, acquire_mutex, release_mutex, load, store,
  call,
}
use nsqlite.Threads.Exec.{count_on, touch_on, classify_program, rollback_program, execute_program}

-- The result of a call.
pub data Answer : Type 0 where
  answered : Result QueryResult → Answer
  ticked : Answer
  closed : Result (Unit {0}) → Answer

pub data Call : Type 0 where
  run_query : Query → Call
  tick : (timeout : ℕ) → Call
  close_db : Call

module _ {W : Type 0} (e : Engine W) where
  unfoldable pub classified_program : Query → Result QueryType → Program W (Result QueryResult)
  classified_program q (err x) = pure (err (failed_to detect_query_type x))
  classified_program q (ok type) = execute_program e q type

  -- `queryWithType` after the validation
  unfoldable pub in_tx_program : Query → Program W (Result QueryResult)
  in_tx_program q = do
    store (touch_on e)
    t ← classify_program e q.query q.tx_id
    r ← classified_program q t
    store (touch_on e)
    pure r

  -- `validateTxID`, of an ID that is not empty, and what follows it: the owner is loaded only for
  -- the ID of the open transaction and a named owner.
  unfoldable pub owner_program : Query → Program W (Result QueryResult)
  owner_program q = if is_empty q.tx_owner then in_tx_program q else (do
    owner ← load (λ s. s.tx_owner)
    if text_eq q.tx_owner owner then in_tx_program q else pure (err tx_not_match))

  unfoldable pub matched_program : Query → Text → Program W (Result QueryResult)
  matched_program q [] = pure (err tx_not_found)
  matched_program q (c ∷ cs) =
      if text_eq q.tx_id (c ∷ cs) then owner_program q else pure (err tx_not_match)

  unfoldable pub with_type_program : Query → Program W (Result QueryResult)
  with_type_program q = do current ← load (λ s. s.tx_id); matched_program q current

  -- A write holds `txMu` while it runs.
  unfoldable pub outside_program : Query → QueryType → Program W (Result QueryResult)
  outside_program q write = do
    acquire_mutex tx_mu
    r ← execute_program e q write
    release_mutex tx_mu
    pure r
  outside_program q type = execute_program e q type

  -- The second classification, once no transaction is open.
  unfoldable pub again_program : Query → Program W (Result QueryResult)
  again_program q = do
    acquire_mutex tx_mu
    t ← classify_program e q.query q.tx_id
    r ← classified_program q t
    release_mutex tx_mu
    pure r

  -- After a first classification that failed, by the ID that is open then.
  unfoldable pub failed_program : Query → Error → Text → Program W (Result QueryResult)
  failed_program q x [] = pure (err (failed_to detect_query_type x))
  failed_program q x (c ∷ cs) = again_program q

  unfoldable pub first_program : Query → Result QueryType → Program W (Result QueryResult)
  first_program q (ok type) = outside_program q type
  first_program q (err x) = do current ← load (λ s. s.tx_id); failed_program q x current

  unfoldable pub query_locked_program : Query → Program W (Result QueryResult)
  query_locked_program q =
      if is_empty q.tx_id
      then (do t ← classify_program e q.query q.tx_id; first_program q t)
      else (do acquire_mutex tx_op_mu; r ← with_type_program q; release_mutex tx_op_mu; pure r)

  unfoldable pub count_error_program : Result QueryResult → Program W (Result QueryResult)
  count_error_program (ok q) = pure (ok q)
  count_error_program (err x) = do store (count_on e inc_errors); pure (err x)

  unfoldable pub query_program : Query → Program W (Result QueryResult)
  query_program q = do r ← query_locked_program q; count_error_program r

  -- A rollback by the server itself; its result is ignored.
  unfoldable pub roll_back_program : Text → Program W (Unit {0})
  roll_back_program [] = pure tt
  roll_back_program (c ∷ cs) = do rollback_program e (c ∷ cs) admin; pure tt

  unfoldable pub idle_program : ℕ → Text → Program W (Unit {0})
  idle_program timeout [] = pure tt
  idle_program timeout (c ∷ cs) = do
    idle ← load (λ s. e.now s.world - s.tx_last_used)
    if ltb timeout idle then roll_back_program (c ∷ cs) else pure tt

  -- One tick of `txIdleMonitor`
  unfoldable pub tick_program : ℕ → Program W (Unit {0})
  tick_program timeout = do
    acquire_mutex tx_op_mu
    tx_id ← load (λ s. s.tx_id)
    idle_program timeout tx_id
    release_mutex tx_op_mu

  abbrev pub close_read_result : Result (Unit {0}) → Result (Unit {0})
  close_read_result (err x) = err (failed_to close_read x)
  close_read_result (ok _) = ok tt

  -- The pools, once `Close` is done with the transaction.
  unfoldable pub close_read_program : Result (Unit {0}) → Program W (Result (Unit {0}))
  close_read_program (err x) = pure (err (failed_to close_write x))
  close_read_program (ok _) = do
    r ← call plain (e.close_pool read_only_pool)
    pure (close_read_result r)

  unfoldable pub close_pools_program : Program W (Result (Unit {0}))
  close_pools_program = do r ← call plain (e.close_pool read_write_pool); close_read_program r

  unfoldable pub close_program : Program W (Result (Unit {0}))
  close_program = do
    acquire_mutex tx_op_mu
    tx_id ← load (λ s. s.tx_id)
    roll_back_program tx_id
    release_mutex tx_op_mu
    close_pools_program

  unfoldable pub program : Call → Program W Answer
  program (run_query q) = do r ← query_program q; pure (answered r)
  program (tick timeout) = do tick_program timeout; pure ticked
  program close_db = do r ← close_program; pure (closed r)
