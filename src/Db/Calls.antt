-- ===== src/Db/Calls.antt =====
-- The effect of whole calls: `DB.Query`, a tick of the idle monitor, and `Close`.
use nsqlite.Prelude.{
  ℕ, ◌≡◌, refl, inl, inr, Bool, true, false, none, [], ◌∷◌, Text, is_empty, arith, Bool-cases,
}
use nsqlite.Authorizer.Defs.{admin}
use nsqlite.Db.Types.{
  Query, QueryType, unknown, read, write, begin, commit, rollback, Error, Result, ok, err, Engine,
}
use nsqlite.Db.State.{Db}
use nsqlite.Db.Classify.{classify_text}
use nsqlite.Db.Exec.{execute_classified_query}
use nsqlite.Db.Query.{
  validate_tx_id, run_classified, query_in_tx, query_with_type, query_classified, query_again,
  query_outside, query_outside_tx, query_locked, query_by, roll_back_if,
}
use nsqlite.Db.Classified.{classified, classify_query-done, classified-type, classified-err}
use nsqlite.Db.Effect.{Rests, Effect, Ensures, MayWait}
use nsqlite.Db.Steps.{
  IsCounted, execute_begin_query-Effect, execute_commit_query-Effect, execute_rollback_query-Effect,
  execute_write_query-Effect, execute_read_query-Effect,
}

module _ {W : Type 0} (e : Engine W)
    (uuid_nonempty : (w : W) → is_empty (e.new_uuid w).0 ≡ false) where
  -- A transaction ID comes only with an open transaction.
  abbrev pub InTx : Query → Db W → Type 0
  InTx q s = is_empty q.tx_id ≡ false → is_empty s.tx_id ≡ false

  execute_classified_query-Effect :
      (op : Bool) (q : Query) (type : QueryType) (s : Db W)
      → Rests op false s
      → IsCounted s.stats
      → InTx q s
      → Ensures (MayWait q s) (λ _ t. Effect op false s t) (execute_classified_query e q type s)
  unfolding execute_classified_query
  execute_classified_query-Effect op q begin s h n o =
      execute_begin_query-Effect e uuid_nonempty op q.tx_id q.role q.tx_owner s h n
  execute_classified_query-Effect op q commit s h n o =
      ground (arith, execute_commit_query-Effect e op q.tx_id q.role s h o)
  execute_classified_query-Effect op q rollback s h n o =
      ground (arith, execute_rollback_query-Effect e op q.tx_id q.role s h o)
  execute_classified_query-Effect op q read s h n o =
      ground (arith, execute_read_query-Effect e op false q s h)
  execute_classified_query-Effect op q write s h n o =
      ground (arith, execute_write_query-Effect e op false q s h n)
  execute_classified_query-Effect op q unknown s h n o = ground arith

  run_classified-Effect :
      (op : Bool) (q : Query) (r : Result QueryType) (s : Db W)
      → Rests op false s
      → IsCounted s.stats
      → InTx q s
      → Ensures (MayWait q s) (λ _ t. Effect op false s t) (run_classified e q r s)
  unfolding run_classified
  run_classified-Effect op q (err x) s h n o = ground arith
  run_classified-Effect op q (ok type) s h n o = execute_classified_query-Effect op q type s h n o

  -- The environment and the time of the last use are no part of the effect.
  Effect-world :
      (op lk : Bool) (s : Db W) (w : W) (used : ℕ)
      → Rests op lk s
      → Effect op lk s (record s { world = w; tx_last_used = used })
  Effect-world op lk s w used h = ground arith

  query_in_tx-Effect :
      (q : Query) (s : Db W)
      → Rests true false s
      → IsCounted s.stats
      → InTx q s
      → Ensures (MayWait q s) (λ _ t. Effect true false s t) (query_in_tx e q s)
  unfolding query_in_tx
  query_in_tx-Effect q s h n o =
      let s' = record s { tx_last_used = e.now s.world } in
      let (r, w) = classified e q.query q.tx_id s.world in
      let t = record s' { world = w } in
      ground (arith, classify_query-done e q.query q.tx_id s', run_classified-Effect true q r t)

  validate-InTx :
      (id owner : Text) (s : Db W)
      → validate_tx_id id owner s ≡ ok tt
      → is_empty id ≡ false
      → is_empty s.tx_id ≡ false
  unfolding validate_tx_id
  validate-InTx [] owner s v o = absurd (cc)
  validate-InTx (c ∷ cs) owner s v o = ground arith

  query_with_type-Effect :
      (q : Query) (s : Db W)
      → Rests true false s
      → IsCounted s.stats
      → Ensures (MayWait q s) (λ _ t. Effect true false s t) (query_with_type e q s)
  unfolding query_with_type
  query_with_type-Effect q s h n = ground (
    arith,
    validate-InTx q.tx_id q.tx_owner s,
    query_in_tx-Effect q s,
    Effect-world true false s s.world s.tx_last_used,
  )

  -- A write outside a transaction holds `txMu` while it runs.
  query_classified-Effect :
      (q : Query) (type : QueryType) (s : Db W)
      → Rests false false s
      → IsCounted s.stats
      → is_empty q.tx_id ≡ true
      → Ensures (MayWait q s) (λ _ t. Effect false false s t) (query_classified e q type s)
  unfolding query_classified execute_classified_query
  query_classified-Effect q write s h n o =
      ground (arith, execute_write_query-Effect e false true q (record s { tx_mu = true }))
  query_classified-Effect q type s h n o =
      ground (arith, execute_classified_query-Effect false q type s)

  query_again-Effect :
      (q : Query) (s : Db W)
      → Rests false false s
      → IsCounted s.stats
      → is_empty q.tx_id ≡ true
      → classify_text q.query ≡ none
      → Ensures (MayWait q s) (λ _ t. Effect false false s t) (query_again e q s)
  unfolding query_again run_classified execute_classified_query
  query_again-Effect q s h n o c =
      let s' = record s { tx_mu = true } in
      let (r, w) = classified e q.query q.tx_id s.world in
      let t = record s' { world = w } in
      ground (
        arith,
        classify_query-done e q.query q.tx_id s',
        classified-type e q.query q.tx_id s.world {type = begin} c,
        classified-type e q.query q.tx_id s.world {type = commit} c,
        classified-type e q.query q.tx_id s.world {type = rollback} c,
        execute_write_query-Effect e false true q t,
        execute_read_query-Effect e false true q t,
      )

  query_outside-Effect :
      (q : Query) (r : Result QueryType) (s : Db W)
      → Rests false false s
      → IsCounted s.stats
      → is_empty q.tx_id ≡ true
      → ((x : Error) → r ≡ err x → classify_text q.query ≡ none)
      → Ensures (MayWait q s) (λ _ t. Effect false false s t) (query_outside e q r s)
  unfolding query_outside
  query_outside-Effect q (ok type) s h n o c = query_classified-Effect q type s h n o
  query_outside-Effect q (err x) s h n o c = ground (
    arith,
    query_again-Effect q s h n o (c x refl),
    Effect-world false false s s.world s.tx_last_used h,
  )

  query_outside_tx-Effect :
      (q : Query) (s : Db W)
      → Rests false false s
      → IsCounted s.stats
      → is_empty q.tx_id ≡ true
      → Ensures (MayWait q s) (λ _ t. Effect false false s t) (query_outside_tx e q s)
  unfolding query_outside_tx
  query_outside_tx-Effect q s h n o =
      let (r, w) = classified e q.query q.tx_id s.world in
      let t = record s { world = w } in
      let rest =
        query_outside-Effect q r t (ground arith) n o
          (λ x k. classified-err e q.query q.tx_id s.world {x = x} k) in
      ground (arith, rest, classify_query-done e q.query q.tx_id s)

  pub query_locked-Effect :
      (q : Query) (s : Db W)
      → Rests false false s
      → IsCounted s.stats
      → Ensures (MayWait q s) (λ _ t. Effect false false s t) (query_locked e q s)
  unfolding query_locked query_by
  query_locked-Effect q s h n = elim (Bool-cases (is_empty q.tx_id)) [
    | inl outside ↦ ground (arith, query_outside_tx-Effect q s h n outside)
    | inr inside ↦ ground (arith, query_with_type-Effect q (record s { tx_op_mu = true }))
  ]

  pub roll_back_if-Effect :
      (b : Bool) (tx_id : Text) (s : Db W)
      → Rests true false s
      → (b ≡ true → is_empty s.tx_id ≡ false)
      → Ensures ⊥ (λ _ t. Effect true false s t) (roll_back_if e b tx_id s)
  unfolding roll_back_if
  roll_back_if-Effect false tx_id s h o = Effect-world true false s s.world s.tx_last_used h
  roll_back_if-Effect true tx_id s h o =
      ground (arith, execute_rollback_query-Effect e true tx_id admin s)
