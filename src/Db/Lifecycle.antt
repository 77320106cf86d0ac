-- ===== src/Db/Lifecycle.antt =====
-- How a transaction begins and ends: BEGIN, COMMIT, ROLLBACK and the idle monitor.
use nsqlite.Prelude.{
  ◌≡◌, refl, sym, subst, ◌⊎◌, inl, inr, true, false, some, [], ◌∷◌, Text, text_eq_iff, is_empty,
  arith, codes,
}
use nsqlite.Stats.Defs.{inc_queued_begins, dec_queued_begins}
use nsqlite.Db.Types.{
  Query, QueryType, begin, commit, rollback, QueryResult, Result, ok, err, Engine,
}
use nsqlite.Db.State.{Db, done}
use nsqlite.Db.Classify.{classify_text, use_read_write_conn}
use nsqlite.Db.Exec.{
  execute_classified_query, execute_begin_query, execute_commit_query, execute_rollback_query,
  finish_begin, finish_commit, finish_rollback, run_plain,
}
use nsqlite.Db.Query.{
  validate_tx_id, query_with_type, query_in_tx, run_classified, query_classified, query_outside,
  query_outside_tx, query_locked, query_by, query,
}
use nsqlite.Db.Classified.{classify_query-done}
use nsqlite.Db.Effect.{Rests}
use nsqlite.Db.Steps.{with_read_write_conn-done}

module _ {W : Type 0} (e : Engine W) where
  begin_result :
      (q : Query) (s : Db W)
      → Rests false false s
      → is_empty s.tx_id ≡ true
      → is_empty q.tx_id ≡ true
      → classify_text q.query ≡ some begin
      → (r : QueryResult) (t : Db W) → query e q s ≡ done (ok r) t
      → (r.type ≡ begin)
        × (t.tx_id ≡ r.tx_id)
        × (t.tx_owner ≡ q.tx_owner)
        × (t.tx_mu ≡ true)
        × (r.tx_id
            ≡ (e.new_uuid
                (use_read_write_conn e q.role
                  (run_plain e (codes "BEGIN TRANSACTION"))
                  s.world).1).0)
  unfolding query query_locked query_by query_outside_tx query_outside query_classified
      execute_classified_query execute_begin_query finish_begin inc_queued_begins dec_queued_begins
  begin_result q s h o n c r t k =
      let s' = record s { stats = inc_queued_begins s.stats; tx_mu = true } in
      ground (
        arith,
        classify_query-done e q.query q.tx_id s,
        with_read_write_conn-done e q.role (run_plain e (codes "BEGIN TRANSACTION")) s',
      )

  valid_self :
      (id owner : Text) (s : Db W)
      → is_empty id ≡ false
      → s.tx_id ≡ id
      → s.tx_owner ≡ owner
      → validate_tx_id id owner s ≡ ok tt
  unfolding validate_tx_id
  valid_self [] owner s o k l = absurd (cc)
  valid_self (c ∷ cs) owner s o k l =
      ground (arith, (text_eq_iff (c ∷ cs) (c ∷ cs)).1 refl, (text_eq_iff owner owner).1 refl)

  -- From a state of rest with no transaction open, a BEGIN with no transaction ID that succeeds
  -- opens one: `txMu` is held, and the ID of the answer and the owner that began it pass the
  -- validation in the state that it leaves; this if the generated transaction IDs are not empty.
  pub begin_opens :
      ((w : W) → is_empty (e.new_uuid w).0 ≡ false)
      → (q : Query) (s : Db W) → Rests false false s
      → is_empty s.tx_id ≡ true
      → is_empty q.tx_id ≡ true
      → classify_text q.query ≡ some begin
      → (r : QueryResult) (t : Db W) → query e q s ≡ done (ok r) t
      → (r.type ≡ begin)
        × (t.tx_mu ≡ true)
        × (is_empty t.tx_id ≡ false)
        × (validate_tx_id r.tx_id q.tx_owner t ≡ ok tt)
  begin_opens u q s h o n c r t k =
      let (type, id, owner, held, fresh) = begin_result q s h o n c r t k in
      let some_id =
        u (use_read_write_conn e q.role (run_plain e (codes "BEGIN TRANSACTION")) s.world).1 in
      let full : is_empty r.tx_id ≡ false = rw fresh some_id in
      (type, held, rw id full, valid_self r.tx_id q.tx_owner t full id owner)

  -- What the answer of a COMMIT or a ROLLBACK says of the state.
  abbrev pub Ends : QueryType → Db W → Result QueryResult → Db W → Type 0
  Ends type s (ok r) t = (r.type ≡ type) × (t.tx_id ≡ []) × (t.tx_owner ≡ []) × (t.tx_mu ≡ false)
  Ends type s (err x) t = (t.tx_id ≡ s.tx_id) × (t.tx_owner ≡ s.tx_owner) × (t.tx_mu ≡ s.tx_mu)

  validate-op :
      (id owner : Text) (s : Db W)
      → validate_tx_id id owner (record s { tx_op_mu = true }) ≡ validate_tx_id id owner s
  unfolding validate_tx_id
  validate-op [] owner s = refl
  validate-op (c ∷ cs) owner s = refl

  commit-Ends :
      (q : Query) (s : Db W)
      → Rests false false s
      → is_empty q.tx_id ≡ false
      → validate_tx_id q.tx_id q.tx_owner s ≡ ok tt
      → classify_text q.query ≡ some commit
      → (x : Result QueryResult) (t : Db W) → query e q s ≡ done x t
      → Ends commit s x t
  unfolding query query_locked query_by query_with_type query_in_tx run_classified
      execute_classified_query execute_commit_query finish_commit
  commit-Ends q s h o v c (ok r) t k =
      let t' = record s { tx_op_mu = true; tx_last_used = e.now s.world } in
      ground (
        arith,
        validate-op q.tx_id q.tx_owner s,
        classify_query-done e q.query q.tx_id t',
        with_read_write_conn-done e q.role (run_plain e (codes "COMMIT")) t',
      )
  commit-Ends q s h o v c (err x) t k =
      let t' = record s { tx_op_mu = true; tx_last_used = e.now s.world } in
      ground (
        arith,
        validate-op q.tx_id q.tx_owner s,
        classify_query-done e q.query q.tx_id t',
        with_read_write_conn-done e q.role (run_plain e (codes "COMMIT")) t',
      )

  rollback-Ends :
      (q : Query) (s : Db W)
      → Rests false false s
      → is_empty q.tx_id ≡ false
      → validate_tx_id q.tx_id q.tx_owner s ≡ ok tt
      → classify_text q.query ≡ some rollback
      → (x : Result QueryResult) (t : Db W) → query e q s ≡ done x t
      → Ends rollback s x t
  unfolding query query_locked query_by query_with_type query_in_tx run_classified
      execute_classified_query execute_rollback_query finish_rollback
  rollback-Ends q s h o v c (ok r) t k =
      let t' = record s { tx_op_mu = true; tx_last_used = e.now s.world } in
      ground (
        arith,
        validate-op q.tx_id q.tx_owner s,
        classify_query-done e q.query q.tx_id t',
        with_read_write_conn-done e q.role (run_plain e (codes "ROLLBACK")) t',
      )
  rollback-Ends q s h o v c (err x) t k =
      let t' = record s { tx_op_mu = true; tx_last_used = e.now s.world } in
      ground (
        arith,
        validate-op q.tx_id q.tx_owner s,
        classify_query-done e q.query q.tx_id t',
        with_read_write_conn-done e q.role (run_plain e (codes "ROLLBACK")) t',
      )

  -- From a state of rest, the answer of a COMMIT or a ROLLBACK with the ID and the owner of the
  -- open transaction tells the state: a success has closed the transaction and freed `txMu`; an
  -- error has left both as they were.
  pub query-Ends :
      (q : Query) (type : QueryType) (s : Db W)
      → Rests false false s
      → is_empty q.tx_id ≡ false
      → validate_tx_id q.tx_id q.tx_owner s ≡ ok tt
      → (type ≡ commit) ⊎ (type ≡ rollback)
      → classify_text q.query ≡ some type
      → (x : Result QueryResult) (t : Db W) → query e q s ≡ done x t
      → Ends type s x t
  query-Ends q type s h o v (inl k) c x t d =
      subst (λ z. Ends z s x t) (sym k) (commit-Ends q s h o v (rw k at c) x t d)
  query-Ends q type s h o v (inr k) c x t d =
      subst (λ z. Ends z s x t) (sym k) (rollback-Ends q s h o v (rw k at c) x t d)
