-- ===== src/Threads/CallsObey.antt =====
-- The programs of the calls keep to the discipline.
use nsqlite.Prelude.{
  ℕ, ◌-◌, ◌≡◌, refl, true, false, [], ◌∷◌, Text, is_empty, arith, ltb, inl, inr, Bool-cases,
}
use nsqlite.Authorizer.Defs.{admin}
use nsqlite.Db.Types.{Engine, Query, QueryResult, Result, ok, err}
use nsqlite.Threads.Program.{plain, tx_op_mu}
use nsqlite.Threads.Discipline.{
  Held, Obeys, Obeys-bind, call-then, plain-then, load-then, learn-then, lock-then, unlock-then,
  pure-Obeys, unlock-end,
}
use nsqlite.Threads.Calls.{
  Call, run_query, tick, close_db, query_locked_program, count_error_program, query_program,
  roll_back_program, idle_program, tick_program, close_read_program, close_pools_program,
  close_program, program,
}
use nsqlite.Threads.ExecObeys.{SameMutexes, IsInside, rollback_program-Obeys}
use nsqlite.Threads.InsideObeys.{IsFree, classify-then, with_type_program-Obeys}
use nsqlite.Threads.OutsideObeys.{Frees, first_program-Obeys}

module _ {W : Type 0} (e : Engine W)
    (uuid_nonempty : (w : W) → is_empty (e.new_uuid w).0 ≡ false) where
  query_locked_program-Obeys :
      (q : Query) (h : Held) → IsFree h → Obeys Frees h (query_locked_program e q)
  unfolding query_locked_program
  query_locked_program-Obeys q h free = elim (Bool-cases (is_empty q.tx_id)) [
    | inl outside ↦ rw outside (
        classify-then e _ q h _ free.2 (λ k. absurd (ground arith))
          (λ t f. first_program-Obeys e uuid_nonempty q t h outside free f))
    | inr inside ↦ rw inside (
        let h' = record h { op = true } in
        lock-then _ h tx_op_mu _ free (
          Obeys-bind _ _ h' _ _ (with_type_program-Obeys e uuid_nonempty q h' free.0 free.2 refl)
            (λ h2 a same.
              unlock-then _ h2 tx_op_mu _ same.1
                (pure-Obeys W _ _ _ (ground (arith, same, free))))))
  ]

  count_error_program-Obeys :
      (r : Result QueryResult) (h : Held) → IsFree h → Obeys Frees h (count_error_program e r)
  unfolding count_error_program
  count_error_program-Obeys (ok q) h free = pure-Obeys W _ _ _ free
  count_error_program-Obeys (err x) h free =
      plain-then _ h _ _ (λ s. ground arith) (pure-Obeys W _ _ _ free)

  query_program-Obeys : (q : Query) (h : Held) → IsFree h → Obeys Frees h (query_program e q)
  unfolding query_program
  query_program-Obeys q h free =
      Obeys-bind _ _ h _ _ (query_locked_program-Obeys q h free)
        (λ h' r f. count_error_program-Obeys r h' f)

  roll_back_program-Obeys :
      (tx_id : Text) (h : Held)
      → IsInside tx_id h
      → Obeys (SameMutexes h) h (roll_back_program e tx_id)
  unfolding roll_back_program
  roll_back_program-Obeys [] h i = pure-Obeys W _ _ _ (refl, refl, refl)
  roll_back_program-Obeys (c ∷ cs) h i =
      Obeys-bind _ _ h _ _ (rollback_program-Obeys e (c ∷ cs) admin h (λ _. i))
        (λ h' a same. pure-Obeys W _ _ _ same)

  idle_program-Obeys :
      (timeout : ℕ) (tx_id : Text) (h : Held)
      → IsInside tx_id h
      → Obeys (SameMutexes h) h (idle_program e timeout tx_id)
  unfolding idle_program
  idle_program-Obeys timeout [] h i = pure-Obeys W _ _ _ (refl, refl, refl)
  idle_program-Obeys timeout (c ∷ cs) h i = load-then _ h _ _ (λ s known.
      elim (Bool-cases (ltb timeout (e.now s.world - s.tx_last_used))) [
        | inl idle ↦ rw idle (roll_back_program-Obeys (c ∷ cs) h i)
        | inr used ↦ rw used (pure-Obeys W _ _ _ (refl, refl, refl))
      ])

  tick_program-Obeys : (timeout : ℕ) (h : Held) → IsFree h → Obeys Frees h (tick_program e timeout)
  unfolding tick_program
  tick_program-Obeys timeout h free = lock-then _ h tx_op_mu _ free (
      learn-then _ _ _ refl (λ tx_id.
        let h' = record h { op = true; tx_id = tx_id } in
        Obeys-bind _ _ h' _ _ (idle_program-Obeys timeout tx_id h' (ground (arith, free)))
          (λ h2 a same. unlock-end W _ h2 tx_op_mu same.1 (ground (arith, same, free)))))

  close_read_program-Obeys :
      (r : Result (Unit {0})) (h : Held) → IsFree h → Obeys Frees h (close_read_program e r)
  unfolding close_read_program
  close_read_program-Obeys (err x) h free = pure-Obeys W _ _ _ free
  close_read_program-Obeys (ok u) h free = call-then _ h plain _ _ tt (λ w. pure-Obeys W _ _ _ free)

  close_pools_program-Obeys : (h : Held) → IsFree h → Obeys Frees h (close_pools_program e)
  unfolding close_pools_program
  close_pools_program-Obeys h free =
      call-then _ h plain _ _ tt (λ w. close_read_program-Obeys _ h free)

  close_program-Obeys : (h : Held) → IsFree h → Obeys Frees h (close_program e)
  unfolding close_program
  close_program-Obeys h free = lock-then _ h tx_op_mu _ free (
      learn-then _ _ _ refl (λ tx_id.
        let h' = record h { op = true; tx_id = tx_id } in
        Obeys-bind _ _ h' _ _ (roll_back_program-Obeys tx_id h' (ground (arith, free)))
          (λ h2 a same.
            unlock-then _ h2 tx_op_mu _ same.1
              (close_pools_program-Obeys _ (ground (arith, same, free))))))

  pub program-Obeys : (c : Call) (h : Held) → IsFree h → Obeys Frees h (program e c)
  unfolding program
  program-Obeys (run_query q) h free =
      Obeys-bind _ _ h _ _ (query_program-Obeys q h free) (λ h' r f. pure-Obeys W _ _ _ f)
  program-Obeys (tick timeout) h free =
      Obeys-bind _ _ h _ _ (tick_program-Obeys timeout h free) (λ h' r f. pure-Obeys W _ _ _ f)
  program-Obeys close_db h free =
      Obeys-bind _ _ h _ _ (close_program-Obeys h free) (λ h' r f. pure-Obeys W _ _ _ f)
