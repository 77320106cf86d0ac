-- ===== src/Threads/SoloCalls.antt =====
-- A call that runs alone is the call of Db/Query.antt.
use nsqlite.Prelude.{
  ℕ, ◌-◌, ◌≡◌, refl, inl, inr, Bool, true, false, not, ◌&&◌, [], ◌∷◌, Text, text_eq, is_empty, ltb,
  arith, Bool-cases, if◌then◌else◌,
}
use nsqlite.Authorizer.Defs.{admin}
use nsqlite.Db.Types.{
  Query, QueryResult, QueryType, unknown, read, write, begin, commit, rollback, Result, ok, err,
  Error, Engine, tx_not_found, tx_not_match, detect_query_type, failed_to, read_only_pool,
  close_write, close_read,
}
use nsqlite.Db.State.{Db, done, M}
use nsqlite.Db.Query.{
  validate_tx_id, run_classified, query_in_tx, query_with_type, query_classified, query_again,
  query_outside, query_outside_tx, query_by, query_locked, count_error, query, roll_back_if,
  idle_tick, close,
}
use nsqlite.Threads.Program.{pure, solo, tx_mu, tx_op_mu}
use nsqlite.Threads.Calls.{
  classified_program, in_tx_program, owner_program, matched_program, with_type_program,
  outside_program, again_program, failed_program, first_program, query_locked_program,
  count_error_program, query_program, roll_back_program, idle_program, tick_program,
  close_read_result, close_read_program, close_pools_program, close_program,
}
use nsqlite.Threads.Solo.{
  bind-alone, lock-alone, unlock-alone, bind-at, release-alone, store-alone, load-alone, call-alone,
  pure-alone,
}
use nsqlite.Threads.SoloExec.{solo-classify, solo-execute, solo-rollback}

err-alone :
    {W : Type 0} (x : Error) (s : Db W)
    → solo {A = Result QueryResult} (pure (err x)) s ≡ done (err x) s
err-alone x s = pure-alone _ s

module _ {W : Type 0} (e : Engine W) where
  solo-classified :
      (q : Query) (t : Result QueryType) (s : Db W)
      → solo (classified_program e q t) s ≡ run_classified e q t s
  unfolding classified_program run_classified
  solo-classified q (err x) s = pure-alone _ s
  solo-classified q (ok type) s = solo-execute e q type s

  solo-in_tx : (q : Query) (s : Db W) → solo (in_tx_program e q) s ≡ query_in_tx e q s
  unfolding in_tx_program query_in_tx
  solo-in_tx q s = store-alone _ _ s _ (
      bind-alone _ _ _ _ _ (solo-classify e q.query q.tx_id) (λ t s1.
        bind-alone _ _ _ _ s1 (solo-classified q t)
          (λ r s2. store-alone _ _ s2 _ (pure-alone r _))))

  solo-owner :
      (q : Query) (s : Db W)
      → solo (owner_program e q) s ≡ (
          if not (is_empty q.tx_owner) && not (text_eq q.tx_owner s.tx_owner)
          then done (err tx_not_match) s
          else query_in_tx e q s)
  unfolding owner_program
  solo-owner q s = elim (Bool-cases (is_empty q.tx_owner)) [
    | inl unowned ↦ rw unowned (solo-in_tx q s)
    | inr owned ↦ rw owned (
        load-alone _ _ s _ (elim (Bool-cases (text_eq q.tx_owner s.tx_owner)) [
          | inl same ↦ rw same (solo-in_tx q s)
          | inr other ↦ rw other (pure-alone _ s)
        ]))
  ]

  solo-matched :
      (q : Query) (current : Text) (s : Db W)
      → s.tx_id ≡ current
      → is_empty q.tx_id ≡ false
      → solo (matched_program e q current) s ≡ query_with_type e q s
  unfolding matched_program query_with_type validate_tx_id
  solo-matched q [] s now n = ground (arith, err-alone tx_not_found s)
  solo-matched q (c ∷ cs) s now n = ground (arith, solo-owner q s, err-alone tx_not_match s)

  solo-with_type :
      (q : Query) (s : Db W)
      → is_empty q.tx_id ≡ false
      → solo (with_type_program e q) s ≡ query_with_type e q s
  unfolding with_type_program
  solo-with_type q s n = load-alone _ _ s _ (solo-matched q s.tx_id s refl n)

  solo-outside :
      (q : Query) (type : QueryType) (s : Db W)
      → solo (outside_program e q type) s ≡ query_classified e q type s
  unfolding outside_program query_classified
  solo-outside q write s = lock-alone tx_mu _ _ s (λ t.
      bind-alone _ _ _ _ t (solo-execute e q write)
        (λ r t1. unlock-alone tx_mu _ _ t1 (pure-alone r)))
  solo-outside q begin s = solo-execute e q begin s
  solo-outside q commit s = solo-execute e q commit s
  solo-outside q rollback s = solo-execute e q rollback s
  solo-outside q read s = solo-execute e q read s
  solo-outside q unknown s = solo-execute e q unknown s

  solo-again : (q : Query) (s : Db W) → solo (again_program e q) s ≡ query_again e q s
  unfolding again_program query_again
  solo-again q s = lock-alone tx_mu _ _ s (λ t.
      bind-alone _ _ _ _ t (solo-classify e q.query q.tx_id) (λ c t1.
        bind-alone _ _ _ _ t1 (solo-classified q c)
          (λ r t2. unlock-alone tx_mu _ _ t2 (pure-alone r))))

  solo-failed :
      (q : Query) (x : Error) (current : Text) (s : Db W)
      → s.tx_id ≡ current
      → solo (failed_program e q x current) s ≡ query_outside e q (err x) s
  unfolding failed_program query_outside
  solo-failed q x [] s now = ground (arith, err-alone (failed_to detect_query_type x) s)
  solo-failed q x (c ∷ cs) s now = ground (arith, solo-again q s)

  solo-first :
      (q : Query) (t : Result QueryType) (s : Db W)
      → solo (first_program e q t) s ≡ query_outside e q t s
  unfolding first_program query_outside
  solo-first q (ok type) s = solo-outside q type s
  solo-first q (err x) s = load-alone _ _ s _ (solo-failed q x s.tx_id s refl)

  solo-query_by :
      (b : Bool) (q : Query) (s : Db W)
      → is_empty q.tx_id ≡ b
      → solo (query_locked_program e q) s ≡ query_by e b q s
  unfolding query_locked_program query_by query_outside_tx
  solo-query_by true q s outside =
      rw outside (bind-alone _ _ _ _ s (solo-classify e q.query q.tx_id) (solo-first q))
  solo-query_by false q s inside = rw inside (
      lock-alone tx_op_mu _ _ s (λ t.
        bind-alone _ _ _ _ t (λ t. solo-with_type q t inside)
          (λ r t1. unlock-alone tx_op_mu _ _ t1 (pure-alone r))))

  solo-query_locked :
      (q : Query) (s : Db W) → solo (query_locked_program e q) s ≡ query_locked e q s
  unfolding query_locked
  solo-query_locked q s = solo-query_by (is_empty q.tx_id) q s refl

  solo-count_error :
      (r : Result QueryResult) (s : Db W) → solo (count_error_program e r) s ≡ count_error e r s
  unfolding count_error_program
  solo-count_error (ok q) s = pure-alone _ s
  solo-count_error (err x) s = store-alone _ _ s _ (pure-alone _ _)

  pub solo-query : (q : Query) (s : Db W) → solo (query_program e q) s ≡ query e q s
  unfolding query_program query
  solo-query q s = bind-alone _ _ _ _ s (solo-query_locked q) solo-count_error

  solo-roll_back :
      (tx_id : Text) (s : Db W)
      → solo (roll_back_program e tx_id) s ≡ roll_back_if e (not (is_empty tx_id)) tx_id s
  unfolding roll_back_program roll_back_if
  solo-roll_back [] s = pure-alone _ s
  solo-roll_back (c ∷ cs) s =
      bind-alone _ _ _ _ s (solo-rollback e (c ∷ cs) admin) (λ r t. pure-alone _ t)

  solo-idle :
      (timeout : ℕ) (tx_id : Text) (s : Db W)
      → solo (idle_program e timeout tx_id) s
        ≡ roll_back_if e
            (not (is_empty tx_id) && ltb timeout (e.now s.world - s.tx_last_used))
            tx_id
            s
  unfolding idle_program roll_back_if
  solo-idle timeout [] s = pure-alone _ s
  solo-idle timeout (c ∷ cs) s =
      load-alone _ _ s _ (elim (Bool-cases (ltb timeout (e.now s.world - s.tx_last_used))) [
        | inl idle ↦ rw idle (solo-roll_back (c ∷ cs) s)
        | inr used ↦ rw used (pure-alone _ s)
      ])

  pub solo-tick : (timeout : ℕ) (s : Db W) → solo (tick_program e timeout) s ≡ idle_tick e timeout s
  unfolding tick_program idle_tick
  solo-tick timeout s = lock-alone tx_op_mu _ _ s (λ t. load-alone _ _ t _ (
      bind-at (idle_program e timeout t.tx_id)
        (roll_back_if e (not (is_empty t.tx_id) && ltb timeout (e.now t.world - t.tx_last_used))
          t.tx_id)
        _ _ t (solo-idle timeout t.tx_id t) (λ u t1. release-alone tx_op_mu t1)))

  solo-close_result :
      (r : Result (Unit {0})) (s : Db W)
      → solo (pure (close_read_result e r)) s
        ≡ (elim r as (λ _. M W (Result (Unit {0}))) [
          | err x ↦ λ t. done (err (failed_to close_read x)) t
          | ok _ ↦ λ t. done (ok tt) t
        ])
            s
  solo-close_result (err x) s = pure-alone _ s
  solo-close_result (ok u) s = pure-alone _ s

  solo-close_read :
      (r : Result (Unit {0})) (s : Db W)
      → solo (close_read_program e r) s
        ≡ (elim r as (λ _. M W (Result (Unit {0}))) [
          | err x ↦ λ t. done (err (failed_to close_write x)) t
          | ok _ ↦ λ t.
              elim (e.close_pool read_only_pool t.world).0 as (λ _. M W (Result (Unit {0}))) [
                | err x ↦ λ u. done (err (failed_to close_read x)) u
                | ok _ ↦ λ u. done (ok tt) u
              ]
                (record t { world = (e.close_pool read_only_pool t.world).1 })
        ])
            s
  unfolding close_read_program
  solo-close_read (err x) s = pure-alone _ s
  solo-close_read (ok u) s = call-alone _ _ _ s _ (solo-close_result _ _)

  pub solo-close : (s : Db W) → solo (close_program e) s ≡ close e s
  unfolding close_program close_pools_program close
  solo-close s = lock-alone tx_op_mu _ _ s (λ t. load-alone _ _ t _ (
      bind-alone _ _ _ _ t (solo-roll_back t.tx_id)
        (λ u t1. unlock-alone tx_op_mu _ _ t1 (λ t2. call-alone _ _ _ t2 _ (solo-close_read _ _)))))
