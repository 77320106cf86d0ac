-- ===== src/Db/RoleCalls.antt =====
-- Under which role the statements of a call run: the calls of internal/db/db.go.
use nsqlite.Prelude.{Bool, true, false, is_empty, arith}
use nsqlite.Authorizer.Defs.{AuthorizerRole}
use nsqlite.Db.Types.{
  Query, QueryType, unknown, read, write, begin, commit, rollback, QueryResult, SqliteResult, Step,
  Result, ok, err, Pool, read_write_pool, read_only_pool, Engine, executing_write_query,
  executing_read_query,
}
use nsqlite.Db.State.{Db, Outcome, done, waits, fatal, M}
use nsqlite.Stats.Defs.{inc_queued_writes}
use nsqlite.Db.Classify.{classify_query, with_read_write_conn, get_raw_conn}
use nsqlite.Db.Exec.{
  run_on, read_on_read_only_conn, write_result, read_result, finish_read, execute_write_query,
  execute_read_query, execute_classified_query,
}
use nsqlite.Db.Query.{
  run_classified, query_in_tx, query_with_type, query_classified, query_again, query_outside,
  query_outside_tx, query_by, query_locked, count_error, query,
}
use nsqlite.Db.Roles.{
  Keeps, Kept, run_on-Runs, get_raw_conn-Keeps, with_read_write_conn-Kept, classify_query-Kept,
}
use nsqlite.Db.RoleSteps.{
  Kept-bind, acquire-Kept, release-Kept, execute_begin_query-Kept, execute_commit_query-Kept,
  execute_rollback_query-Kept, finish_write-Kept, finish_read-Kept,
}

module _ {W : Type 0} (e : Engine W) (q : Query) (RoleIs : Pool → AuthorizerRole → W → Type 0)
    (Keep : W → Type 0) (k : Keeps e q.role RoleIs Keep) where
  abbrev bind :
      {A B : Type 0} (o : Outcome W A) (f : A → M W B)
      → Kept Keep o
      → ((a : A) (t : Db W) → Keep t.world → Kept Keep (f a t))
      → Kept Keep (elim o [ done a t ↦ f a t | waits t ↦ waits t | fatal ↦ fatal ])
  bind o f h g = Kept-bind e q.role RoleIs Keep k o f h g

  read_on_read_only_conn-Keep : (w : W) → Keep w → Keep (read_on_read_only_conn e q w).1
  unfolding read_on_read_only_conn
  read_on_read_only_conn-Keep w h =
      let w' = (get_raw_conn e read_only_pool w).1 in
      let w'' = (e.set_authorizer_role read_only_pool q.role w').1 in
      let fn = run_on e read_only_pool q.query q.params executing_read_query read_result in
      ground (
        arith,
        get_raw_conn-Keeps e q.role RoleIs Keep k read_only_pool w h,
        k.set read_only_pool q.role w',
        k.is_set read_only_pool w',
        run_on-Runs e q.role RoleIs Keep k read_only_pool q.query q.params executing_read_query
            read_result w'',
        k.close_keeps read_only_pool w'',
        k.close_keeps read_only_pool (fn w'').1,
      )

  on_write_conn-Kept :
      (step : Step) (result : SqliteResult → QueryResult) (s : Db W)
      → Keep s.world
      → Kept Keep
          (with_read_write_conn e q.role (run_on e read_write_pool q.query q.params step result) s)
  on_write_conn-Kept step result s h =
      with_read_write_conn-Kept e q.role RoleIs Keep k
        (run_on e read_write_pool q.query q.params step result) s
        (run_on-Runs e q.role RoleIs Keep k read_write_pool q.query q.params step result) h

  execute_write_query-Kept : (s : Db W) → Keep s.world → Kept Keep (execute_write_query e q s)
  unfolding execute_write_query
  execute_write_query-Kept s h =
      let s1 = record s { stats = inc_queued_writes s.stats } in
      bind _ _ (on_write_conn-Kept executing_write_query write_result s1 h)
        (λ r t g. bind _ _ (finish_write-Kept e q.role RoleIs Keep k r t g) (λ x u f. f))

  execute_read_query-Kept : (s : Db W) → Keep s.world → Kept Keep (execute_read_query e q s)
  unfolding execute_read_query
  execute_read_query-Kept s h =
      let w = (read_on_read_only_conn e q s.world).1 in
      let r = (read_on_read_only_conn e q s.world).0 in
      let inside =
        bind
          (with_read_write_conn e q.role
            (run_on e read_write_pool q.query q.params executing_read_query read_result) s)
          (finish_read e) (on_write_conn-Kept executing_read_query read_result s h)
          (λ r t g. finish_read-Kept e q.role RoleIs Keep k r t g) in
      ground (
        arith,
        inside,
        finish_read-Kept e q.role RoleIs Keep k r (record s { world = w })
            (read_on_read_only_conn-Keep s.world h),
      )

  execute_classified_query-Kept :
      (type : QueryType) (s : Db W) → Keep s.world → Kept Keep (execute_classified_query e q type s)
  unfolding execute_classified_query
  execute_classified_query-Kept begin s h =
      execute_begin_query-Kept e q.role RoleIs Keep k q.tx_id q.tx_owner s h
  execute_classified_query-Kept commit s h =
      execute_commit_query-Kept e q.role RoleIs Keep k q.tx_id s h
  execute_classified_query-Kept rollback s h =
      execute_rollback_query-Kept e q.role RoleIs Keep k q.tx_id s h
  execute_classified_query-Kept read s h = execute_read_query-Kept s h
  execute_classified_query-Kept write s h = execute_write_query-Kept s h
  execute_classified_query-Kept unknown s h = h

  classified-Kept : (s : Db W) → Keep s.world → Kept Keep (classify_query e q.query q.tx_id s)
  classified-Kept s h = classify_query-Kept e q.role RoleIs Keep k q.query q.tx_id s h

  run_classified-Kept :
      (r : Result QueryType) (s : Db W) → Keep s.world → Kept Keep (run_classified e q r s)
  unfolding run_classified
  run_classified-Kept (err x) s h = h
  run_classified-Kept (ok type) s h = execute_classified_query-Kept type s h

  query_in_tx-Kept : (s : Db W) → Keep s.world → Kept Keep (query_in_tx e q s)
  unfolding query_in_tx
  query_in_tx-Kept s h =
      bind _ _ (classified-Kept (record s { tx_last_used = e.now s.world }) h)
        (λ c t g. bind _ _ (run_classified-Kept c t g) (λ r u f. f))

  query_with_type-Kept : (s : Db W) → Keep s.world → Kept Keep (query_with_type e q s)
  unfolding query_with_type
  query_with_type-Kept s h = ground (arith, query_in_tx-Kept s h)

  query_classified-Kept :
      (type : QueryType) (s : Db W) → Keep s.world → Kept Keep (query_classified e q type s)
  unfolding query_classified
  query_classified-Kept write s h =
      bind _ _ (acquire-Kept e q.role RoleIs Keep k s.tx_mu s (record s { tx_mu = true }) h h)
        (λ a t g. bind _ _ (execute_classified_query-Kept write t g) (λ r u f.
          bind _ _ (release-Kept e q.role RoleIs Keep k u.tx_mu (record u { tx_mu = false }) f)
            (λ b v z. z)))
  query_classified-Kept type s h = execute_classified_query-Kept type s h

  query_again-Kept : (s : Db W) → Keep s.world → Kept Keep (query_again e q s)
  unfolding query_again
  query_again-Kept s h =
      bind _ _ (acquire-Kept e q.role RoleIs Keep k s.tx_mu s (record s { tx_mu = true }) h h)
        (λ a t g. bind _ _ (classified-Kept t g) (λ c u f.
          bind _ _ (run_classified-Kept c u f) (λ r v z.
            bind _ _ (release-Kept e q.role RoleIs Keep k v.tx_mu (record v { tx_mu = false }) z)
              (λ b w y. y))))

  query_outside-Kept :
      (r : Result QueryType) (s : Db W) → Keep s.world → Kept Keep (query_outside e q r s)
  unfolding query_outside
  query_outside-Kept (ok type) s h = query_classified-Kept type s h
  query_outside-Kept (err x) s h = ground (arith, query_again-Kept s h)

  query_by-Kept : (b : Bool) (s : Db W) → Keep s.world → Kept Keep (query_by e b q s)
  unfolding query_by query_outside_tx
  query_by-Kept true s h = bind _ _ (classified-Kept s h) (λ r t g. query_outside-Kept r t g)
  query_by-Kept false s h =
      bind _ _ (acquire-Kept e q.role RoleIs Keep k s.tx_op_mu s (record s { tx_op_mu = true }) h h)
        (λ a t g. bind _ _ (query_with_type-Kept t g) (λ r u f.
          bind _ _
            (release-Kept e q.role RoleIs Keep k u.tx_op_mu (record u { tx_op_mu = false }) f)
            (λ b v z. z)))

  count_error-Kept :
      (r : Result QueryResult) (s : Db W) → Keep s.world → Kept Keep (count_error e r s)
  count_error-Kept (ok x) s h = h
  count_error-Kept (err x) s h = h

  -- A call of `Query` runs every statement under the role of its query: a property of the
  -- environment that the other uses of a connection keep, and that a statement keeps on a
  -- connection whose role was set to the query's, holds when the call has ended or waits, on every
  -- branch and from every state of the database.
  pub query-Kept : (s : Db W) → Keep s.world → Kept Keep (query e q s)
  unfolding query query_locked
  query-Kept s h = bind _ _ (query_by-Kept (is_empty q.tx_id) s h) (λ r t g. count_error-Kept r t g)
