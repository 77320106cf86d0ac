-- ===== src/Threads/ExecObeys.antt =====
-- The programs of BEGIN, COMMIT, ROLLBACK, reads and writes keep to the discipline.
use nsqlite.Prelude.{
  ℕ, ◌≡◌, refl, sym, true, false, [], ◌∷◌, Text, is_empty, arith, codes, inl, inr, Bool-cases,
}
use nsqlite.Authorizer.Defs.{AuthorizerRole}
use nsqlite.Stats.Defs.{DbStats, inc_writes, inc_reads}
use nsqlite.Db.Types.{Engine, Query, QueryResult, Result, ok, err}
use nsqlite.Db.Exec.{run_plain}
use nsqlite.Threads.Program.{plain, ◌>>=◌, tx_mu}
use nsqlite.Threads.Discipline.{
  Held, keeps, opens, closes, Obeys, Obeys-bind, Obeys-then, call-then, store-then, plain-then,
  lock-then, unlock-then, pure-Obeys,
}
use nsqlite.Threads.Exec.{
  conn_program, finish_begin_program, begin_program, finish_commit_program, commit_program,
  finish_rollback_program, rollback_program, finish_program, write_program, read_program,
}

-- What is held at the end is what was held before.
abbrev pub Same : {A : Type 0} → Held → Held → A → Type 0
Same h h' a = h' ≡ h

-- The same up to what is known of the open transaction.
abbrev pub SameMutexes : {A : Type 0} → Held → Held → A → Type 0
SameMutexes h h' a = (h'.tx ≡ h.tx) × (h'.op ≡ h.op) × (h'.write ≡ h.write)

-- What the use of the read-write connection for `tx_id` needs.
pub record IsReady (tx_id : Text) (h : Held) : Type 0 where
  pub unlocked : h.write ≡ false
  pub outside : is_empty tx_id ≡ true → h.tx ≡ true
  pub inside : is_empty tx_id ≡ false → h.tx_id ≡ tx_id

-- A thread inside the transaction `tx_id`.
pub record IsInside (tx_id : Text) (h : Held) : Type 0 where
  pub no_tx : h.tx ≡ false
  pub no_write : h.write ≡ false
  pub same_id : h.tx_id ≡ tx_id

module _ {W : Type 0} (e : Engine W) where
  conn_program-Obeys :
      (tx_id : Text) (role : AuthorizerRole) (fn : W → Result QueryResult × W) (h : Held)
      → IsReady tx_id h
      → Obeys (Same h) h (conn_program e tx_id role fn)
  unfolding conn_program Obeys ◌>>=◌
  conn_program-Obeys tx_id role fn h r = (
    r.unlocked,
    (
      (refl, r.outside, r.inside),
      λ s known. (ground arith, (record h { write = true }, keeps refl, (refl, ground arith))),
    ),
  )

  module _ (uuid_nonempty : (w : W) → is_empty (e.new_uuid w).0 ≡ false) where
    finish_begin_program-Obeys :
        (owner : Text) (r : Result QueryResult) (h : Held)
        → h.tx ≡ true
        → Obeys (λ h' _. h' ≡ record h { tx = false }) h (finish_begin_program e owner r)
    unfolding finish_begin_program
    finish_begin_program-Obeys owner (err x) h held =
        unlock-then _ h tx_mu _ held (pure-Obeys W _ _ _ refl)
    finish_begin_program-Obeys owner (ok q) h held =
        let h' = record h { tx = false } in
        call-then _ h plain e.new_uuid _ tt (λ w.
          store-then _ h _ _ (λ s. ground arith)
            (λ s known. (
              h',
              opens held (uuid_nonempty w),
              plain-then _ h' _ _ (λ s. ground arith)
                  (plain-then _ h' _ _ (λ s. ground arith)
                    (plain-then _ h' _ _ (λ s. ground arith) (pure-Obeys W _ _ _ refl))),
            )))

    pub begin_program-Obeys :
        (tx_id : Text) (role : AuthorizerRole) (owner : Text) (h : Held)
        → (is_empty tx_id ≡ true → (h.tx ≡ false) × (h.op ≡ false) × (h.write ≡ false))
        → Obeys (SameMutexes h) h (begin_program e tx_id role owner)
    unfolding begin_program
    begin_program-Obeys (c ∷ cs) role owner h free = pure-Obeys W _ _ _ (refl, refl, refl)
    begin_program-Obeys [] role owner h free =
        let h' = record h { tx = true } in
        plain-then _ h _ _ (λ s. ground arith)
          (lock-then _ h tx_mu _ (free refl) (
            Obeys-then _ h' _ _
              (conn_program-Obeys [] role (run_plain e (codes "BEGIN TRANSACTION")) h' (record {
                unlocked = (free refl).2;
                outside = λ _. refl;
                inside = λ n. absurd (ground arith);
              }))
              (λ r. Obeys-bind _ _ h' _ _ (finish_begin_program-Obeys owner r h' refl) (λ h2 a same.
                plain-then _ h2 _ _ (λ s. ground arith)
                  (pure-Obeys W _ _ _ (ground (arith, same, free refl)))))))

  -- A commit and a rollback that succeed take `txMu` back from the transaction and free it.
  finish_commit_program-Obeys :
      (r : Result QueryResult) (h : Held)
      → is_empty h.tx_id ≡ false
      → h.tx ≡ false
      → Obeys (SameMutexes h) h (finish_commit_program e r)
  unfolding finish_commit_program
  finish_commit_program-Obeys (err x) h is_open free = pure-Obeys W _ _ _ (refl, refl, refl)
  finish_commit_program-Obeys (ok q) h is_open free =
      let h' = record h { tx = true; tx_id = [] } in
      store-then _ h _ _ (λ s. ground arith)
        (λ s known. (
          h',
          closes is_open free refl,
          plain-then _ h' _ _ (λ s. ground arith)
              (plain-then _ h' _ _ (λ s. ground arith)
                (plain-then _ h' _ _ (λ s. ground arith)
                  (unlock-then _ h' tx_mu _ refl (pure-Obeys W _ _ _ (sym free, refl, refl))))),
        ))

  finish_rollback_program-Obeys :
      (r : Result QueryResult) (h : Held)
      → is_empty h.tx_id ≡ false
      → h.tx ≡ false
      → Obeys (SameMutexes h) h (finish_rollback_program e r)
  unfolding finish_rollback_program
  finish_rollback_program-Obeys (err x) h is_open free = pure-Obeys W _ _ _ (refl, refl, refl)
  finish_rollback_program-Obeys (ok q) h is_open free =
      let h' = record h { tx = true; tx_id = [] } in
      store-then _ h _ _ (λ s. ground arith)
        (λ s known. (
          h',
          closes is_open free refl,
          plain-then _ h' _ _ (λ s. ground arith)
              (plain-then _ h' _ _ (λ s. ground arith)
                (plain-then _ h' _ _ (λ s. ground arith)
                  (unlock-then _ h' tx_mu _ refl (pure-Obeys W _ _ _ (sym free, refl, refl))))),
        ))

  pub commit_program-Obeys :
      (tx_id : Text) (role : AuthorizerRole) (h : Held)
      → (is_empty tx_id ≡ false → IsInside tx_id h)
      → Obeys (SameMutexes h) h (commit_program e tx_id role)
  unfolding commit_program
  commit_program-Obeys [] role h i = pure-Obeys W _ _ _ (refl, refl, refl)
  commit_program-Obeys (c ∷ cs) role h i =
      Obeys-then _ h _ _ (conn_program-Obeys (c ∷ cs) role _ h (ground (arith, i refl)))
        (λ r. finish_commit_program-Obeys r h (ground (arith, i refl)) (i refl).no_tx)

  pub rollback_program-Obeys :
      (tx_id : Text) (role : AuthorizerRole) (h : Held)
      → (is_empty tx_id ≡ false → IsInside tx_id h)
      → Obeys (SameMutexes h) h (rollback_program e tx_id role)
  unfolding rollback_program
  rollback_program-Obeys [] role h i = pure-Obeys W _ _ _ (refl, refl, refl)
  rollback_program-Obeys (c ∷ cs) role h i =
      Obeys-then _ h _ _ (conn_program-Obeys (c ∷ cs) role _ h (ground (arith, i refl)))
        (λ r. finish_rollback_program-Obeys r h (ground (arith, i refl)) (i refl).no_tx)

  finish_program-Obeys :
      (inc : ℕ → DbStats → DbStats) (r : Result QueryResult) (h : Held)
      → Obeys (SameMutexes h) h (finish_program e inc r)
  unfolding finish_program
  finish_program-Obeys inc (err x) h = pure-Obeys W _ _ _ (refl, refl, refl)
  finish_program-Obeys inc (ok q) h =
      plain-then _ h _ _ (λ s. ground arith) (pure-Obeys W _ _ _ (refl, refl, refl))

  pub write_program-Obeys :
      (q : Query) (h : Held) → IsReady q.tx_id h → Obeys (SameMutexes h) h (write_program e q)
  unfolding write_program
  write_program-Obeys q h r =
      plain-then _ h _ _ (λ s. ground arith)
        (Obeys-then _ h _ _ (conn_program-Obeys q.tx_id q.role _ h r) (λ x.
          Obeys-bind _ _ h _ _ (finish_program-Obeys inc_writes x h)
            (λ h' a same. plain-then _ h' _ _ (λ s. ground arith) (pure-Obeys W _ _ _ same))))

  pub read_program-Obeys :
      (q : Query) (h : Held)
      → (is_empty q.tx_id ≡ false → IsReady q.tx_id h)
      → Obeys (SameMutexes h) h (read_program e q)
  unfolding read_program
  read_program-Obeys q h r = elim (Bool-cases (is_empty q.tx_id)) [
    | inl outside ↦
        rw outside (call-then _ h plain _ _ tt (λ w. finish_program-Obeys inc_reads _ h))
    | inr inside ↦ rw inside (
        Obeys-then _ h _ _ (conn_program-Obeys q.tx_id q.role _ h (r inside))
          (λ x. finish_program-Obeys inc_reads x h))
  ]
