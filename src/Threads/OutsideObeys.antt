-- ===== src/Threads/OutsideObeys.antt =====
-- The programs of a query outside a transaction keep to the discipline.
use nsqlite.Prelude.{
  ◌≡◌, refl, subst, true, false, [], ◌∷◌, none, some, Text, is_empty, arith, Option, inr, ◌⊎◌,
}
use nsqlite.Db.Types.{
  Engine, Query, QueryType, unknown, read, write, begin, commit, rollback, Result, ok, err, Error,
}
use nsqlite.Db.Classify.{classify_text}
use nsqlite.Threads.Program.{tx_mu}
use nsqlite.Threads.Discipline.{
  Held, Obeys, Obeys-bind, load-then, lock-then, unlock-then, pure-Obeys, Obeys-weaken,
}
use nsqlite.Threads.Calls.{
  classified_program, outside_program, again_program, failed_program, first_program,
}
use nsqlite.Threads.Exec.{execute_program}
use nsqlite.Threads.ExecObeys.{
  SameMutexes, begin_program-Obeys, commit_program-Obeys, rollback_program-Obeys,
  read_program-Obeys, write_program-Obeys,
}
use nsqlite.Threads.InsideObeys.{Fits, IsFree, classify-then}

-- At the end nothing is held.
abbrev pub Frees : {A : Type 0} → Held → A → Type 0
Frees h a = IsFree h

Fits-err : (o : Option QueryType) (x : Error) → Fits o (err x) → o ≡ none
Fits-err (some type) x f = absurd (ground arith)
Fits-err none x f = refl

module _ {W : Type 0} (e : Engine W)
    (uuid_nonempty : (w : W) → is_empty (e.new_uuid w).0 ≡ false) where
  -- Outside a transaction, all but a write, which needs `txMu`.
  execute-outside :
      (q : Query) (type : QueryType) (h : Held)
      → is_empty q.tx_id ≡ true
      → IsFree h
      → (type ≡ write → ⊥)
      → Obeys (SameMutexes h) h (execute_program e q type)
  unfolding execute_program
  execute-outside q begin h n free other =
      begin_program-Obeys e uuid_nonempty q.tx_id q.role q.tx_owner h (λ _. free)
  execute-outside q commit h n free other =
      commit_program-Obeys e q.tx_id q.role h (λ k. absurd (ground arith))
  execute-outside q rollback h n free other =
      rollback_program-Obeys e q.tx_id q.role h (λ k. absurd (ground arith))
  execute-outside q read h n free other = read_program-Obeys e q h (λ k. absurd (ground arith))
  execute-outside q write h n free other = absurd (other refl)
  execute-outside q unknown h n free other = pure-Obeys W _ _ _ (refl, refl, refl)

  -- What SQLite classifies may run with `txMu`.
  execute-alone :
      (q : Query) (type : QueryType) (h : Held)
      → is_empty q.tx_id ≡ true
      → h.tx ≡ true
      → h.write ≡ false
      → (type ≡ read) ⊎ (type ≡ write)
      → Obeys (SameMutexes h) h (execute_program e q type)
  unfolding execute_program
  execute-alone q read h n held free t = read_program-Obeys e q h (λ k. absurd (ground arith))
  execute-alone q write h n held free t =
      write_program-Obeys e q h
        (record { unlocked = free; outside = λ _. held; inside = λ k. absurd (ground arith) })
  execute-alone q begin h n held free t = absurd (ground arith)
  execute-alone q commit h n held free t = absurd (ground arith)
  execute-alone q rollback h n held free t = absurd (ground arith)
  execute-alone q unknown h n held free t = absurd (ground arith)

  classified-alone :
      (q : Query) (t : Result QueryType) (h : Held)
      → is_empty q.tx_id ≡ true
      → h.tx ≡ true
      → h.write ≡ false
      → Fits none t
      → Obeys (SameMutexes h) h (classified_program e q t)
  unfolding classified_program
  classified-alone q (err x) h n held free f = pure-Obeys W _ _ _ (refl, refl, refl)
  classified-alone q (ok type) h n held free f = execute-alone q type h n held free (f type refl)

  execute-Frees :
      (q : Query) (type : QueryType) (h : Held)
      → is_empty q.tx_id ≡ true
      → IsFree h
      → (type ≡ write → ⊥)
      → Obeys Frees h (execute_program e q type)
  execute-Frees q type h n free other =
      Obeys-weaken _ _ h _ (execute-outside q type h n free other)
        (λ h' a same. ground (arith, same, free))

  outside_program-Obeys :
      (q : Query) (type : QueryType) (h : Held)
      → is_empty q.tx_id ≡ true
      → IsFree h
      → Obeys Frees h (outside_program e q type)
  unfolding outside_program
  outside_program-Obeys q write h n free =
      let h' = record h { tx = true } in
      lock-then _ h tx_mu _ free (
        Obeys-bind _ _ h' _ _ (execute-alone q write h' n refl free.2 (inr refl)) (λ h2 a same.
          unlock-then _ h2 tx_mu _ same.0 (pure-Obeys W _ _ _ (ground (arith, same, free)))))
  outside_program-Obeys q begin h n free = execute-Frees q begin h n free (λ k. ground arith)
  outside_program-Obeys q commit h n free = execute-Frees q commit h n free (λ k. ground arith)
  outside_program-Obeys q rollback h n free = execute-Frees q rollback h n free (λ k. ground arith)
  outside_program-Obeys q read h n free = execute-Frees q read h n free (λ k. ground arith)
  outside_program-Obeys q unknown h n free = execute-Frees q unknown h n free (λ k. ground arith)

  again_program-Obeys :
      (q : Query) (h : Held)
      → is_empty q.tx_id ≡ true
      → IsFree h
      → classify_text q.query ≡ none
      → Obeys Frees h (again_program e q)
  unfolding again_program
  again_program-Obeys q h n free hidden =
      let h' = record h { tx = true } in
      lock-then _ h tx_mu _ free (
        classify-then e _ q h' _ free.2 (λ k. absurd (ground arith))
          (λ t f.
            Obeys-bind _ _ h' _ _
              (classified-alone q t h' n refl free.2 (subst (λ o. Fits o t) hidden f))
              (λ h2 a same.
                unlock-then _ h2 tx_mu _ same.0 (pure-Obeys W _ _ _ (ground (arith, same, free))))))

  failed_program-Obeys :
      (q : Query) (x : Error) (current : Text) (h : Held)
      → is_empty q.tx_id ≡ true
      → IsFree h
      → classify_text q.query ≡ none
      → Obeys Frees h (failed_program e q x current)
  unfolding failed_program
  failed_program-Obeys q x [] h n free hidden = pure-Obeys W _ _ _ free
  failed_program-Obeys q x (c ∷ cs) h n free hidden = again_program-Obeys q h n free hidden

  pub first_program-Obeys :
      (q : Query) (t : Result QueryType) (h : Held)
      → is_empty q.tx_id ≡ true
      → IsFree h
      → Fits (classify_text q.query) t
      → Obeys Frees h (first_program e q t)
  unfolding first_program
  first_program-Obeys q (ok type) h n free f = outside_program-Obeys q type h n free
  first_program-Obeys q (err x) h n free f =
      load-then _ h _ _ (λ s known.
        failed_program-Obeys q x s.tx_id h n free (Fits-err (classify_text q.query) x f))
