-- ===== src/Db/RoleSteps.antt =====
-- Under which role the statements of a call run: BEGIN, COMMIT and ROLLBACK, and the mutexes.
use nsqlite.Prelude.{Bool, true, false, [], ◌∷◌, Text, arith, codes}
use nsqlite.Authorizer.Defs.{AuthorizerRole}
use nsqlite.Db.Types.{QueryResult, Result, ok, err, Pool, Engine}
use nsqlite.Db.State.{
  Db, Outcome, done, waits, fatal, M, acquire, release, lock_tx_mu, unlock_tx_mu,
}
use nsqlite.Stats.Defs.{inc_queued_begins}
use nsqlite.Db.Classify.{with_read_write_conn}
use nsqlite.Db.Exec.{
  run_plain, finish_begin, execute_begin_query, finish_commit, execute_commit_query,
  finish_rollback, execute_rollback_query, finish_write, finish_read,
}
use nsqlite.Db.Roles.{Keeps, Kept, run_plain-Runs, with_read_write_conn-Kept}

module _ {W : Type 0} (e : Engine W) (role : AuthorizerRole)
    (RoleIs : Pool → AuthorizerRole → W → Type 0) (Keep : W → Type 0)
    (k : Keeps e role RoleIs Keep) where
  pub Kept-bind :
      {A B : Type 0} (o : Outcome W A) (f : A → M W B)
      → Kept Keep o
      → ((a : A) (t : Db W) → Keep t.world → Kept Keep (f a t))
      → Kept Keep (elim o [ done a t ↦ f a t | waits t ↦ waits t | fatal ↦ fatal ])
  Kept-bind (done a t) f h g = g a t h
  Kept-bind (waits t) f h g = h
  Kept-bind fatal f h g = h

  pub acquire-Kept :
      (b : Bool) (s t : Db W) → Keep s.world → Keep t.world → Kept Keep (acquire b s t)
  acquire-Kept true s t h g = h
  acquire-Kept false s t h g = g

  pub release-Kept : (b : Bool) (t : Db W) → Keep t.world → Kept Keep (release b t)
  release-Kept true t h = h
  release-Kept false t h = tt

  pub finish_begin-Kept :
      (owner : Text) (r : Result QueryResult) (s : Db W)
      → Keep s.world
      → Kept Keep (finish_begin e owner r s)
  unfolding finish_begin
  finish_begin-Kept owner (err x) s h =
      Kept-bind (unlock_tx_mu s) _ (release-Kept s.tx_mu (record s { tx_mu = false }) h)
        (λ a t g. g)
  finish_begin-Kept owner (ok q) s h = k.uuid s.world h

  pub execute_begin_query-Kept :
      (tx_id owner : Text) (s : Db W)
      → Keep s.world
      → Kept Keep (execute_begin_query e tx_id role owner s)
  unfolding execute_begin_query
  execute_begin_query-Kept (c ∷ cs) owner s h = h
  execute_begin_query-Kept [] owner s h =
      let s1 = record s { stats = inc_queued_begins s.stats } in
      Kept-bind (lock_tx_mu s1) _ (acquire-Kept s.tx_mu s1 (record s1 { tx_mu = true }) h h)
        (λ a t g.
          Kept-bind (with_read_write_conn e role (run_plain e (codes "BEGIN TRANSACTION")) t) _
            (with_read_write_conn-Kept e role RoleIs Keep k
              (run_plain e (codes "BEGIN TRANSACTION")) t
              (run_plain-Runs e role RoleIs Keep k (codes "BEGIN TRANSACTION")) g)
            (λ r u g.
              Kept-bind (finish_begin e owner r u) _ (finish_begin-Kept owner r u g) (λ q v g. g)))

  pub plain-Kept :
      (sql : Text) (s : Db W)
      → Keep s.world
      → Kept Keep (with_read_write_conn e role (run_plain e sql) s)
  plain-Kept sql s h =
      with_read_write_conn-Kept e role RoleIs Keep k (run_plain e sql) s
        (run_plain-Runs e role RoleIs Keep k sql) h

  pub finish_commit-Kept :
      (r : Result QueryResult) (s : Db W) → Keep s.world → Kept Keep (finish_commit e r s)
  unfolding finish_commit
  finish_commit-Kept (err x) s h = h
  finish_commit-Kept (ok q) s h = ground arith

  pub execute_commit_query-Kept :
      (tx_id : Text) (s : Db W) → Keep s.world → Kept Keep (execute_commit_query e tx_id role s)
  unfolding execute_commit_query
  execute_commit_query-Kept [] s h = h
  execute_commit_query-Kept (c ∷ cs) s h =
      Kept-bind _ _ (plain-Kept (codes "COMMIT") s h) (λ r t g. finish_commit-Kept r t g)

  pub finish_rollback-Kept :
      (r : Result QueryResult) (s : Db W) → Keep s.world → Kept Keep (finish_rollback e r s)
  unfolding finish_rollback
  finish_rollback-Kept (err x) s h = h
  finish_rollback-Kept (ok q) s h = ground arith

  pub execute_rollback_query-Kept :
      (tx_id : Text) (s : Db W) → Keep s.world → Kept Keep (execute_rollback_query e tx_id role s)
  unfolding execute_rollback_query
  execute_rollback_query-Kept [] s h = h
  execute_rollback_query-Kept (c ∷ cs) s h =
      Kept-bind _ _ (plain-Kept (codes "ROLLBACK") s h) (λ r t g. finish_rollback-Kept r t g)

  pub finish_write-Kept :
      (r : Result QueryResult) (s : Db W) → Keep s.world → Kept Keep (finish_write e r s)
  unfolding finish_write
  finish_write-Kept (err x) s h = h
  finish_write-Kept (ok q) s h = h

  pub finish_read-Kept :
      (r : Result QueryResult) (s : Db W) → Keep s.world → Kept Keep (finish_read e r s)
  unfolding finish_read
  finish_read-Kept (err x) s h = h
  finish_read-Kept (ok q) s h = h
