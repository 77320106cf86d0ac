-- ===== src/Threads/Alone.antt =====
-- The calls of Db/Query.antt, one after the other, are one order of the accesses.
use nsqlite.Prelude.{
  ℕ, ◌≡◌, ◌↔◌, ap, refl, sym, ◌∙◌, subst, ◌≢◌, inl, inr, true, false, arith, Bool-cases,
}
use nsqlite.Db.Types.{Engine}
use nsqlite.Db.State.{Db, done, M, ◌>>=◌, ◌>>◌, pure}
use nsqlite.Db.Query.{query, idle_tick, close}
use nsqlite.Threads.Program.{Program, finish, lock, unlock, access, is_locked, set_locked, solo}
use nsqlite.Threads.Solo.{bind-alone, pure-alone}
use nsqlite.Threads.Calls.{
  Answer, answered, ticked, closed, Call, run_query, tick, close_db, program,
}
use nsqlite.Threads.SoloCalls.{solo-query, solo-tick, solo-close}
use nsqlite.Threads.System.{Move, locks, unlocks, accesses, update, System, Step, starts}

module _ {W : Type 0} (e : Engine W) where
  -- What a call does when no other runs.
  abbrev pub run_call : Call → M W Answer
  run_call (run_query q) = do r ← query e q; pure (answered r)
  run_call (tick timeout) = do idle_tick e timeout; pure ticked
  run_call close_db = do r ← close e; pure (closed r)

  pub solo-program : (c : Call) (s : Db W) → solo (program e c) s ≡ run_call c s
  unfolding program
  solo-program (run_query q) s =
      bind-alone _ _ _ _ s (solo-query e q) (λ r t. pure-alone (answered r) t)
  solo-program (tick timeout) s =
      bind-alone _ _ _ _ s (solo-tick e timeout) (λ r t. pure-alone ticked t)
  solo-program close_db s = bind-alone _ _ _ _ s (solo-close e) (λ r t. pure-alone (closed r) t)

  -- The system in which the thread `i` has just begun a call.
  abbrev pub calling : System W → ℕ → Call → System W
  calling s i c = record s { pc = update s.pc i (program e c) }

  -- Moves of the thread `i` alone.
  pub data Alone (i : ℕ) : System W → System W → Type 0 where
    still : {s : System W} → Alone i s s
    goes :
        {s u : System W} {t : Db W} {p : Program W Answer}
        → Move s.db (s.pc i) t p
        → Alone i (record { db = t; pc = update s.pc i p }) u
        → Alone i s u

  -- From `s`, the thread `i` makes the call `c` and comes to its end alone, with the answer `a` and
  -- the state `t`; the other threads are where they were.
  pub record IsRun (s : System W) (i : ℕ) (c : Call) (a : Answer) (t : Db W) (u : System W)
      : Type 0 where
    pub starting : Step e s (calling s i c)
    pub alone : Alone i (calling s i c) u
    pub db_is : u.db ≡ t
    pub ended : u.pc i ≡ finish a
    pub others : (j : ℕ) → i ≢ j → u.pc j ≡ s.pc j

  update-same : {A : Type 0} (f : ℕ → A) (i : ℕ) (a : A) → update f i a i ≡ a
  update-same f i a = ground arith

  -- A move of a program leaves what it does alone.
  solo-Move : {A : Type 0} {s t : Db W} {p p' : Program W A} → Move s p t p' → solo p s ≡ solo p' t
  unfolding solo
  solo-Move {s} (locks m p free) = ground arith
  solo-Move {s} (unlocks m p locked) = ground arith
  solo-Move (accesses v f k) = refl

  -- What a thread that moves alone ends with is what its program does alone.
  Alone-solo :
      {i : ℕ} {s u : System W} {a : Answer}
      → Alone i s u
      → u.pc i ≡ finish a
      → solo (s.pc i) s.db ≡ done a u.db
  unfolding solo
  Alone-solo {s} still k = rw k refl
  Alone-solo {i} {s} (goes {t} {p} mv rest) k =
      solo-Move mv ∙ (ap (λ q. solo q t) (sym (update-same s.pc i p)) ∙ Alone-solo rest k)

  -- The end of a run of the thread `i` from `s`.
  abbrev pub EndsAt : System W → ℕ → Answer → Db W → Type 0
  EndsAt s i a t =
      (u : System W) × Alone i s u
      × (u.db ≡ t)
      × (u.pc i ≡ finish a)
      × ((j : ℕ) → i ≢ j → u.pc j ≡ s.pc j)

  EndsAt-goes :
      {a : Answer} {t d : Db W} {p q : Program W Answer} (s : System W) (i : ℕ)
      → s.pc i ≡ p
      → Move s.db p d q
      → EndsAt (record { db = d; pc = update s.pc i q }) i a t
      → EndsAt s i a t
  EndsAt-goes {d} {q} s i at mv (u, run, db_is, ended, others) = (
    u,
    goes (subst (λ r. Move s.db r d q) (sym at) mv) run,
    db_is,
    ended,
    λ j n. ground (arith, others j n),
  )

  -- A program that ends alone has a run of its moves.
  solo-EndsAt :
      {a : Answer} {t : Db W} (p : Program W Answer) (s : System W) (i : ℕ)
      → s.pc i ≡ p
      → solo p s.db ≡ done a t
      → EndsAt s i a t
  unfolding solo
  solo-EndsAt (finish b) s i at k = (s, still, ground arith, ground arith, λ j n. refl)
  solo-EndsAt (lock m p) s i at k = elim (Bool-cases (is_locked m s.db)) [
    | inl locked ↦ absurd (ground arith)
    | inr free ↦ EndsAt-goes s i at (locks m p free) (
        solo-EndsAt p (record { db = set_locked m true s.db; pc = update s.pc i p }) i
          (update-same s.pc i p) (ground arith))
  ]
  solo-EndsAt (unlock m p) s i at k = elim (Bool-cases (is_locked m s.db)) [
    | inr free ↦ absurd (ground arith)
    | inl locked ↦ EndsAt-goes s i at (unlocks m p locked) (
        solo-EndsAt p (record { db = set_locked m false s.db; pc = update s.pc i p }) i
          (update-same s.pc i p) (ground arith))
  ]
  solo-EndsAt (access v f g) s i at k = EndsAt-goes s i at (accesses v f g) (
      solo-EndsAt (g s.db) (record { db = f s.db; pc = update s.pc i (g s.db) }) i
        (update-same s.pc i (g s.db)) k)

  EndsAt-IsRun :
      (s : System W) (i : ℕ) {b : Answer}
      → s.pc i ≡ finish b
      → (c : Call) {a : Answer} {t : Db W} → EndsAt (calling s i c) i a t
      → (u : System W) × IsRun s i c a t u
  EndsAt-IsRun s i {b} idle c (u, run, db_is, ended, others) = (
    u,
    record {
      starting = starts i b c idle;
      alone = run;
      db_is = db_is;
      ended = ended;
      others = λ j n. ground (arith, others j n);
    },
  )

  -- In any state of the threads and the database, a call of an idle thread ends with an answer and
  -- a state in the sequential model just if the thread, having started this call, comes by moves of
  -- its own alone to the end with this answer and in this state, the other threads being where they
  -- were: each program of accesses and its sequential operation do the same.
  pub calls_in_turn :
      (s : System W) (i : ℕ) {b : Answer}
      → s.pc i ≡ finish b
      → (c : Call) (a : Answer) (t : Db W)
      → (run_call c s.db ≡ done a t) ↔ ((u : System W) × IsRun s i c a t u)
  calls_in_turn s i idle c a t = (
    λ ends. EndsAt-IsRun s i idle c (
        solo-EndsAt (program e c) (calling s i c) i (update-same s.pc i (program e c))
          (solo-program c s.db ∙ ends)),
    λ run.
        sym (solo-program c s.db)
        ∙ (ap (λ q. solo q s.db) (sym (update-same s.pc i (program e c)))
            ∙ (Alone-solo run.1.alone run.1.ended ∙ ap (λ d. done a d) run.1.db_is)),
  )
