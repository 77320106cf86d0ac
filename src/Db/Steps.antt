-- ===== src/Db/Steps.antt =====
-- The effect of each part of a call.
use nsqlite.Prelude.{
  ◌<◌, ◌≡◌, Bool, true, false, [], ◌∷◌, Text, is_empty, arith, int64_mod, dec-inc, codes,
}
use nsqlite.Authorizer.Defs.{AuthorizerRole}
use nsqlite.Stats.Defs.{
  DbStats, inc_queued_begins, dec_queued_begins, inc_queued_writes, dec_queued_writes,
}
use nsqlite.Stats.Balance.{inc_counter-Moves}
use nsqlite.Stats.Report.{reads, writes, begins, commits, rollbacks}
use nsqlite.Db.Types.{
  Query, QueryResult, Result, ok, err, Engine, read_write_pool, executing_write_query,
  executing_read_query,
}
use nsqlite.Db.State.{Db, done}
use nsqlite.Db.Classify.{use_read_write_conn, with_read_write_conn}
use nsqlite.Db.Exec.{
  execute_begin_query, finish_begin, run_plain, run_on, finish_commit, finish_rollback,
  finish_write, finish_read, execute_commit_query, execute_rollback_query, execute_write_query,
  execute_read_query, read_on_read_only_conn, write_result, read_result,
}
use nsqlite.Db.Effect.{Rests, Effect, Ensures}

-- The three queue lengths are int64 patterns.
pub record IsCounted (st : DbStats) : Type 0 where
  pub begins_lt : st.queued_begins < int64_mod
  pub writes_lt : st.queued_writes < int64_mod

module _ {W : Type 0} (e : Engine W) where
  pub with_read_write_conn-done :
      (role : AuthorizerRole) (fn : W → Result QueryResult × W) (s : Db W)
      → s.write_mu ≡ false
      → with_read_write_conn e role fn s
        ≡ done
            (use_read_write_conn e role fn s.world).0
            (record s { world = (use_read_write_conn e role fn s.world).1 })
  unfolding with_read_write_conn
  with_read_write_conn-done role fn s h = ground arith

  module _ (uuid_nonempty : (w : W) → is_empty (e.new_uuid w).0 ≡ false) where
    finish_begin-Effect :
        (op : Bool) (owner : Text) (r : Result QueryResult) (s : Db W)
        → Rests op false (record s { tx_mu = false })
        → s.tx_mu ≡ true
        → Ensures ⊥ (λ _ t. Effect op false s t) (finish_begin e owner r s)
    unfolding finish_begin
    finish_begin-Effect op owner (err x) s h held = ground arith
    finish_begin-Effect op owner (ok q) s h held = ground (
      arith,
      uuid_nonempty s.world,
      inc_counter-Moves begins (e.now (e.new_uuid s.world).1) s.stats,
    )

    pub execute_begin_query-Effect :
        (op : Bool) (tx_id : Text) (role : AuthorizerRole) (owner : Text) (s : Db W)
        → Rests op false s
        → IsCounted s.stats
        → Ensures
            ((is_empty tx_id ≡ true) × (is_empty s.tx_id ≡ false))
            (λ _ t. Effect op false s t)
            (execute_begin_query e tx_id role owner s)
    unfolding execute_begin_query inc_queued_begins dec_queued_begins
    execute_begin_query-Effect op (c ∷ cs) role owner s h n = ground arith
    execute_begin_query-Effect op [] role owner s h n =
        let s' = record s { stats = inc_queued_begins s.stats; tx_mu = true } in
        let fn = run_plain e (codes "BEGIN TRANSACTION") in
        ground (
          arith,
          with_read_write_conn-done role fn s',
          finish_begin-Effect op owner (use_read_write_conn e role fn s.world).0
              (record s' { world = (use_read_write_conn e role fn s.world).1 }),
          dec-inc s.stats.queued_begins,
        )

  finish_commit-Effect :
      (op : Bool) (r : Result QueryResult) (s : Db W)
      → Rests op false s
      → is_empty s.tx_id ≡ false
      → Ensures ⊥ (λ _ t. Effect op false s t) (finish_commit e r s)
  unfolding finish_commit
  finish_commit-Effect op (err x) s h o = ground arith
  finish_commit-Effect op (ok q) s h o =
      ground (arith, inc_counter-Moves commits (e.now s.world) s.stats)

  finish_rollback-Effect :
      (op : Bool) (r : Result QueryResult) (s : Db W)
      → Rests op false s
      → is_empty s.tx_id ≡ false
      → Ensures ⊥ (λ _ t. Effect op false s t) (finish_rollback e r s)
  unfolding finish_rollback
  finish_rollback-Effect op (err x) s h o = ground arith
  finish_rollback-Effect op (ok q) s h o =
      ground (arith, inc_counter-Moves rollbacks (e.now s.world) s.stats)

  -- A commit or a rollback with an ID is only made while a transaction is open.
  pub execute_commit_query-Effect :
      (op : Bool) (tx_id : Text) (role : AuthorizerRole) (s : Db W)
      → Rests op false s
      → (is_empty tx_id ≡ false → is_empty s.tx_id ≡ false)
      → Ensures ⊥ (λ _ t. Effect op false s t) (execute_commit_query e tx_id role s)
  unfolding execute_commit_query
  execute_commit_query-Effect op [] role s h o = ground arith
  execute_commit_query-Effect op (c ∷ cs) role s h o =
      let fn = run_plain e (codes "COMMIT") in
      ground (
        arith,
        with_read_write_conn-done role fn s,
        finish_commit-Effect op (use_read_write_conn e role fn s.world).0
            (record s { world = (use_read_write_conn e role fn s.world).1 }),
      )

  pub execute_rollback_query-Effect :
      (op : Bool) (tx_id : Text) (role : AuthorizerRole) (s : Db W)
      → Rests op false s
      → (is_empty tx_id ≡ false → is_empty s.tx_id ≡ false)
      → Ensures ⊥ (λ _ t. Effect op false s t) (execute_rollback_query e tx_id role s)
  unfolding execute_rollback_query
  execute_rollback_query-Effect op [] role s h o = ground arith
  execute_rollback_query-Effect op (c ∷ cs) role s h o =
      let fn = run_plain e (codes "ROLLBACK") in
      ground (
        arith,
        with_read_write_conn-done role fn s,
        finish_rollback-Effect op (use_read_write_conn e role fn s.world).0
            (record s { world = (use_read_write_conn e role fn s.world).1 }),
      )

  finish_write-Effect :
      (op lk : Bool) (r : Result QueryResult) (s : Db W)
      → Rests op lk s
      → Ensures ⊥ (λ _ t. Effect op lk s t) (finish_write e r s)
  unfolding finish_write
  finish_write-Effect op lk (err x) s h = ground arith
  finish_write-Effect op lk (ok q) s h =
      ground (arith, inc_counter-Moves writes (e.now s.world) s.stats)

  finish_read-Effect :
      (op lk : Bool) (r : Result QueryResult) (s : Db W)
      → Rests op lk s
      → Ensures ⊥ (λ _ t. Effect op lk s t) (finish_read e r s)
  unfolding finish_read
  finish_read-Effect op lk (err x) s h = ground arith
  finish_read-Effect op lk (ok q) s h =
      ground (arith, inc_counter-Moves reads (e.now s.world) s.stats)

  pub execute_write_query-Effect :
      (op lk : Bool) (q : Query) (s : Db W)
      → Rests op lk s
      → IsCounted s.stats
      → Ensures ⊥ (λ _ t. Effect op lk s t) (execute_write_query e q s)
  unfolding execute_write_query inc_queued_writes dec_queued_writes
  execute_write_query-Effect op lk q s h n =
      let s' = record s { stats = inc_queued_writes s.stats } in
      let fn = run_on e read_write_pool q.query q.params executing_write_query write_result in
      let (r, w) = use_read_write_conn e q.role fn s.world in
      ground (
        arith,
        with_read_write_conn-done q.role fn s',
        finish_write-Effect op lk r (record s' { world = w }),
        inc_counter-Moves writes (e.now w) s'.stats,
        dec-inc s.stats.queued_writes,
      )

  pub execute_read_query-Effect :
      (op lk : Bool) (q : Query) (s : Db W)
      → Rests op lk s
      → Ensures ⊥ (λ _ t. Effect op lk s t) (execute_read_query e q s)
  unfolding execute_read_query
  execute_read_query-Effect op lk q s h =
      let fn = run_on e read_write_pool q.query q.params executing_read_query read_result in
      let (r, w) = use_read_write_conn e q.role fn s.world in
      let (r', w') = read_on_read_only_conn e q s.world in
      ground (
        arith,
        with_read_write_conn-done q.role fn s,
        finish_read-Effect op lk r (record s { world = w }),
        finish_read-Effect op lk r' (record s { world = w' }),
      )
