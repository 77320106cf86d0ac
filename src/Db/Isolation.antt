-- ===== src/Db/Isolation.antt =====
-- Transactions against one another: who can use an open one, and what waits for it.
use nsqlite.Prelude.{
  ◌≡◌, ◌⊎◌, true, false, some, [], ◌∷◌, Text, text_eq, is_empty, arith, if◌then◌else◌,
}
use nsqlite.Stats.Defs.{inc_errors, inc_queued_begins}
use nsqlite.Db.Types.{Query, write, begin, tx_not_found, tx_not_match, ok, err, Engine}
use nsqlite.Db.State.{Db, done, waits}
use nsqlite.Db.Classify.{classify_text}
use nsqlite.Db.Exec.{execute_classified_query, execute_begin_query}
use nsqlite.Db.Query.{
  validate_tx_id, query_with_type, query_classified, query_outside, query_outside_tx, query_locked,
  query_by, query,
}
use nsqlite.Db.Classified.{classified, classify_query-done}
use nsqlite.Db.Effect.{Rests}

module _ {W : Type 0} (e : Engine W) where
  -- The transaction ID of a query is not that of the open transaction, or its owner is another.
  abbrev pub IsForeign : Query → Db W → Type 0
  IsForeign q s =
      (is_empty q.tx_id ≡ false)
      × ((text_eq q.tx_id s.tx_id ≡ false)
          ⊎ ((is_empty q.tx_owner ≡ false) × (text_eq q.tx_owner s.tx_owner ≡ false)))

  validate_foreign :
      (id owner : Text) (s : Db W)
      → is_empty id ≡ false
      → (text_eq id s.tx_id ≡ false)
        ⊎ ((is_empty owner ≡ false) × (text_eq owner s.tx_owner ≡ false))
      → validate_tx_id id owner s ≡ err (if is_empty s.tx_id then tx_not_found else tx_not_match)
  unfolding validate_tx_id
  validate_foreign [] owner s o f = absurd (cc)
  validate_foreign (c ∷ cs) owner s o f = ground arith

  -- From a state of rest, a query with the ID of another transaction, or with the open one's ID and
  -- the name of another owner, is answered at once by the matching error, and only the count of
  -- errors changes.
  pub query_foreign :
      (q : Query) (s : Db W)
      → Rests false false s
      → IsForeign q s
      → query e q s
        ≡ done
            (err (if is_empty s.tx_id then tx_not_found else tx_not_match))
            (record s { stats = inc_errors (e.now s.world) s.stats })
  unfolding query query_locked query_by query_with_type
  query_foreign q s h f =
      ground (arith, validate_foreign q.tx_id q.tx_owner (record s { tx_op_mu = true }) f.0 f.1)

  -- From a state of rest with a transaction open, a query with no transaction ID that is classified
  -- as a write waits, and nothing but the classification has been done.
  pub write_waits :
      (q : Query) (s : Db W)
      → Rests false false s
      → is_empty s.tx_id ≡ false
      → is_empty q.tx_id ≡ true
      → (classified e q.query q.tx_id s.world).0 ≡ ok write
      → query e q s ≡ waits (record s { world = (classified e q.query q.tx_id s.world).1 })
  unfolding query query_locked query_by query_outside_tx query_outside query_classified
  write_waits q s h o n c = ground (arith, classify_query-done e q.query q.tx_id s)

  -- From a state of rest with a transaction open, a BEGIN with no transaction ID waits, and nothing
  -- but the entry into the queue of BEGINs has been done.
  pub begin_waits :
      (q : Query) (s : Db W)
      → Rests false false s
      → is_empty s.tx_id ≡ false
      → is_empty q.tx_id ≡ true
      → classify_text q.query ≡ some begin
      → query e q s ≡ waits (record s { stats = inc_queued_begins s.stats })
  unfolding query query_locked query_by query_outside_tx query_outside query_classified
      execute_classified_query execute_begin_query
  begin_waits q s h o n c = ground (arith, classify_query-done e q.query q.tx_id s)
