-- ===== src/Threads/InsideObeys.antt =====
-- The programs of the classification, and of a query inside a transaction, keep to the
-- discipline.
use nsqlite.Prelude.{
  ◌≡◌, refl, sym, subst, true, false, [], ◌∷◌, none, some, Text, text_eq, text_eq_iff, is_empty,
  arith, Option, inl, inr, Bool-cases, ◌⊎◌,
}
use nsqlite.Db.Types.{
  Engine, Query, QueryType, unknown, read, write, begin, commit, rollback, Result, ok, err,
  read_write_pool, read_only_pool, get_read_only_connection, get_read_write_connection,
}
use nsqlite.Db.Classify.{classify_text}
use nsqlite.Db.Classified.{classify_on-type}
use nsqlite.Threads.Program.{plain, on_read_write_conn, Program, ◌>>=◌, write_mu}
use nsqlite.Threads.Discipline.{
  Held, Obeys, Obeys-bind, call-then, call-end, plain-then, load-then, learn-then, lock-then,
  unlock-then, pure-Obeys,
}
use nsqlite.Threads.Calls.{
  classified_program, in_tx_program, owner_program, matched_program, with_type_program,
}
use nsqlite.Threads.Exec.{prepared_program, typed_program, classify_program, execute_program}
use nsqlite.Threads.ExecObeys.{
  SameMutexes, IsInside, begin_program-Obeys, commit_program-Obeys, rollback_program-Obeys,
  read_program-Obeys, write_program-Obeys,
}

-- A classification that fits the text: its kind, or else what SQLite tells.
abbrev pub Fits : Option QueryType → Result QueryType → Type 0
Fits (some type) t = t ≡ ok type
Fits none t = (type : QueryType) → t ≡ ok type → (type ≡ read) ⊎ (type ≡ write)

-- Nothing is held.
abbrev pub IsFree : Held → Type 0
IsFree h = (h.tx ≡ false) × (h.op ≡ false) × (h.write ≡ false)

module _ {W : Type 0} (e : Engine W) where
  prepared_program-Obeys :
      (query tx_id : Text) (h : Held)
      → h.write ≡ false
      → (is_empty tx_id ≡ false → h.tx_id ≡ tx_id)
      → Obeys (λ h' t. (h' ≡ h) × Fits none t) h (prepared_program e query tx_id)
  unfolding prepared_program
  prepared_program-Obeys query [] h free inside =
      call-end _ h plain _ tt (λ w.
        (refl, λ type k. classify_on-type e read_only_pool get_read_only_connection query w k))
  prepared_program-Obeys query (c ∷ cs) h free inside =
      let h' = record h { write = true } in
      lock-then _ h write_mu _ free (
        call-then _ h' (on_read_write_conn (c ∷ cs)) _ _
          (refl, (λ n. absurd (ground arith)), λ _. inside refl)
          (λ w. unlock-then _ h' write_mu _ refl (
            pure-Obeys W _ _ _ (
              ground arith,
              λ type k. classify_on-type e read_write_pool get_read_write_connection query w k,
            ))))

  typed_program-Obeys :
      (o : Option QueryType) (query tx_id : Text) (h : Held)
      → h.write ≡ false
      → (is_empty tx_id ≡ false → h.tx_id ≡ tx_id)
      → Obeys (λ h' t. (h' ≡ h) × Fits o t) h (typed_program e o query tx_id)
  unfolding typed_program
  typed_program-Obeys (some type) query tx_id h free inside = pure-Obeys W _ _ _ (refl, refl)
  typed_program-Obeys none query tx_id h free inside =
      prepared_program-Obeys query tx_id h free inside

  -- What follows a classification.
  pub classify-then :
      {B : Type 0} (R : Held → B → Type 0) (q : Query) (h : Held)
      (k : Result QueryType → Program W B)
      → h.write ≡ false
      → (is_empty q.tx_id ≡ false → h.tx_id ≡ q.tx_id)
      → ((t : Result QueryType) → Fits (classify_text q.query) t → Obeys R h (k t))
      → Obeys R h (classify_program e q.query q.tx_id >>= k)
  unfolding classify_program
  classify-then R q h k free inside next =
      Obeys-bind _ R h _ k
        (typed_program-Obeys (classify_text q.query) q.query q.tx_id h free inside)
        (λ h' t f. subst (λ g. Obeys R g (k t)) (sym f.0) (next t f.1))

  module _ (uuid_nonempty : (w : W) → is_empty (e.new_uuid w).0 ≡ false) where
    -- Inside a transaction every kind of query may run.
    execute-inside :
        (q : Query) (type : QueryType) (h : Held)
        → is_empty q.tx_id ≡ false
        → IsInside q.tx_id h
        → Obeys (SameMutexes h) h (execute_program e q type)
    unfolding execute_program
    execute-inside q begin h n i =
        begin_program-Obeys e uuid_nonempty q.tx_id q.role q.tx_owner h (ground arith)
    execute-inside q commit h n i = commit_program-Obeys e q.tx_id q.role h (λ _. i)
    execute-inside q rollback h n i = rollback_program-Obeys e q.tx_id q.role h (λ _. i)
    execute-inside q read h n i = read_program-Obeys e q h (ground arith)
    execute-inside q write h n i = write_program-Obeys e q h (ground arith)
    execute-inside q unknown h n i = pure-Obeys W _ _ _ (refl, refl, refl)

    classified-inside :
        (q : Query) (t : Result QueryType) (h : Held)
        → is_empty q.tx_id ≡ false
        → IsInside q.tx_id h
        → Obeys (SameMutexes h) h (classified_program e q t)
    unfolding classified_program
    classified-inside q (err x) h n i = pure-Obeys W _ _ _ (refl, refl, refl)
    classified-inside q (ok type) h n i = execute-inside q type h n i

    in_tx_program-Obeys :
        (q : Query) (h : Held)
        → is_empty q.tx_id ≡ false
        → IsInside q.tx_id h
        → Obeys (SameMutexes h) h (in_tx_program e q)
    unfolding in_tx_program
    in_tx_program-Obeys q h n i =
        plain-then _ h _ _ (λ s. ground arith)
          (classify-then _ q h _ i.no_write (λ _. i.same_id)
            (λ t f.
              Obeys-bind _ _ h _ _ (classified-inside q t h n i)
                (λ h' a same. plain-then _ h' _ _ (λ s. ground arith) (pure-Obeys W _ _ _ same))))

    owner_program-Obeys :
        (q : Query) (h : Held)
        → is_empty q.tx_id ≡ false
        → IsInside q.tx_id h
        → Obeys (SameMutexes h) h (owner_program e q)
    unfolding owner_program
    owner_program-Obeys q h n i = elim (Bool-cases (is_empty q.tx_owner)) [
      | inl unowned ↦ rw unowned (in_tx_program-Obeys q h n i)
      | inr owned ↦ rw owned (
          load-then _ h _ _ (λ s known. elim (Bool-cases (text_eq q.tx_owner s.tx_owner)) [
            | inl same ↦ rw same (in_tx_program-Obeys q h n i)
            | inr other ↦ rw other (pure-Obeys W _ _ _ (refl, refl, refl))
          ]))
    ]

    matched_program-Obeys :
        (q : Query) (current : Text) (h : Held)
        → h.tx ≡ false
        → h.write ≡ false
        → h.tx_id ≡ current
        → Obeys (SameMutexes h) h (matched_program e q current)
    unfolding matched_program
    matched_program-Obeys q [] h no_tx no_write same = pure-Obeys W _ _ _ (refl, refl, refl)
    matched_program-Obeys q (c ∷ cs) h no_tx no_write same =
        elim (Bool-cases (text_eq q.tx_id (c ∷ cs))) [
          | inl equal ↦ rw equal (
              owner_program-Obeys q h (ground (arith, text_eq_iff q.tx_id (c ∷ cs)))
                (ground (arith, text_eq_iff q.tx_id (c ∷ cs))))
          | inr other ↦ rw other (pure-Obeys W _ _ _ (refl, refl, refl))
        ]

    pub with_type_program-Obeys :
        (q : Query) (h : Held)
        → h.tx ≡ false
        → h.write ≡ false
        → h.op ≡ true
        → Obeys (SameMutexes h) h (with_type_program e q)
    unfolding with_type_program
    with_type_program-Obeys q h no_tx no_write held =
        learn-then _ h _ held
          (λ tx_id. matched_program-Obeys q tx_id (record h { tx_id = tx_id }) no_tx no_write refl)
