-- ===== src/Db/Monitor.antt =====
-- A tick of the idle monitor.
use nsqlite.Prelude.{
  ℕ, ◌-◌, ◌<◌, ◌≡◌, ◌↔◌, ◌⊎◌, inl, inr, refl, Bool, true, false, not, ◌&&◌, [], ltb, is_empty,
  arith, codes, Bool-cases,
}
use nsqlite.Authorizer.Defs.{admin}
use nsqlite.Stats.Defs.{inc_rollbacks}
use nsqlite.Db.Types.{QueryResult, Result, ok, err, Engine}
use nsqlite.Db.State.{Db, Outcome, done, waits}
use nsqlite.Db.Classify.{use_read_write_conn}
use nsqlite.Db.Exec.{execute_rollback_query, finish_rollback, run_plain}
use nsqlite.Db.Query.{roll_back_if, idle_tick}
use nsqlite.Db.Effect.{Rests, Effect}
use nsqlite.Db.Steps.{with_read_write_conn-done}
use nsqlite.Db.Invariant.{idle_tick-Effect}

module _ {W : Type 0} (e : Engine W) where
  -- What SQLite says to the ROLLBACK of the server.
  abbrev pub roll_back : Db W → Result QueryResult × W
  roll_back s = use_read_write_conn e admin (run_plain e (codes "ROLLBACK")) s.world

  abbrev pub IsOk : Result QueryResult → Type 0
  IsOk (ok r) = Unit
  IsOk (err x) = ⊥

  -- The transaction has been idle for longer than the timeout, and SQLite takes the ROLLBACK.
  abbrev pub Expires : ℕ → Db W → Type 0
  Expires timeout s = (timeout < e.now s.world - s.tx_last_used) × IsOk (roll_back s).0

  -- What a tick does: it waits for `txOpMu` if that is locked, and else it ends. No transaction is
  -- open after it just if none was or the one that was expires; another one is kept.
  abbrev pub Ticks : Bool → ℕ → Db W → Outcome W (Unit {0}) → Type 0
  Ticks true timeout s o = o ≡ waits s
  Ticks false timeout s (done a t) =
      Effect false false s t
      × ((is_empty t.tx_id ≡ true) ↔ ((is_empty s.tx_id ≡ true) ⊎ Expires timeout s))
      × ((is_empty t.tx_id ≡ true) ⊎ ((t.tx_id ≡ s.tx_id) × (t.tx_owner ≡ s.tx_owner)))
  Ticks false timeout s _ = ⊥

  is_due : ℕ → Db W → Bool
  is_due timeout s = not (is_empty s.tx_id) && ltb timeout (e.now s.world - s.tx_last_used)

  -- A tick from a state of rest, by its test and by the answer of SQLite.
  tick_waits : (timeout : ℕ) (s : Db W) → s.tx_op_mu ≡ true → idle_tick e timeout s ≡ waits s
  unfolding idle_tick
  tick_waits timeout s h = ground arith

  tick_keeps :
      (timeout : ℕ) (s : Db W)
      → s.tx_op_mu ≡ false
      → is_due timeout s ≡ false
      → idle_tick e timeout s ≡ done tt s
  unfolding idle_tick roll_back_if is_due
  tick_keeps timeout s h k = ground arith

  -- The state after a rollback, by the answer of SQLite.
  abbrev after_rollback : Result QueryResult × W → Db W → Db W
  after_rollback (ok r, w) s = record s {
    world = w;
    stats = inc_rollbacks (e.now w) s.stats;
    tx_id = [];
    tx_owner = [];
    tx_last_used = e.now w;
    tx_mu = false;
  }
  after_rollback (err x, w) s = record s { world = w }

  tick_rolls_back :
      (timeout : ℕ) (s : Db W) (r : Result QueryResult)
      → Rests false false s
      → is_due timeout s ≡ true
      → (roll_back s).0 ≡ r
      → idle_tick e timeout s ≡ done tt (after_rollback (r, (roll_back s).1) s)
  unfolding idle_tick roll_back_if execute_rollback_query finish_rollback is_due
  tick_rolls_back timeout s (ok r) h k c = ground (
    arith,
    with_read_write_conn-done e admin (run_plain e (codes "ROLLBACK"))
        (record s { tx_op_mu = true }),
  )
  tick_rolls_back timeout s (err x) h k c = ground (
    arith,
    with_read_write_conn-done e admin (run_plain e (codes "ROLLBACK"))
        (record s { tx_op_mu = true }),
  )

  module _ (uuid_nonempty : (w : W) → is_empty (e.new_uuid w).0 ≡ false) where
    tick-Effect :
        (timeout : ℕ) (s t : Db W)
        → Rests false false s
        → idle_tick e timeout s ≡ done tt t
        → Effect false false s t
    tick-Effect timeout s t h k = ground (arith, idle_tick-Effect e uuid_nonempty timeout s h)

    done-Ticks :
        (timeout : ℕ) (s t : Db W)
        → Rests false false s
        → idle_tick e timeout s ≡ done tt t
        → ((is_empty t.tx_id ≡ true) ↔ ((is_empty s.tx_id ≡ true) ⊎ Expires timeout s))
        → ((is_empty t.tx_id ≡ true) ⊎ ((t.tx_id ≡ s.tx_id) × (t.tx_owner ≡ s.tx_owner)))
        → Ticks false timeout s (idle_tick e timeout s)
    done-Ticks timeout s t h k closed kept = rw k (tick-Effect timeout s t h k, closed, kept)

    due-Ticks :
        (timeout : ℕ) (s : Db W) (r : Result QueryResult)
        → Rests false false s
        → is_due timeout s ≡ true
        → (roll_back s).0 ≡ r
        → Ticks false timeout s (idle_tick e timeout s)
    unfolding is_due
    due-Ticks timeout s (ok r) h due c =
        done-Ticks timeout s _ h (tick_rolls_back timeout s (ok r) h due c)
          (λ _. inr (ground arith, rw c tt), λ _. refl) (inl refl)
    due-Ticks timeout s (err x) h due c =
        done-Ticks timeout s _ h (tick_rolls_back timeout s (err x) h due c)
          (
            λ none_open. inl none_open,
            λ o. elim o [ inl none_open ↦ none_open | inr (idle, taken) ↦ absurd (rw c at taken) ],
          )
          (inr (refl, refl))

    idle-Ticks :
        (timeout : ℕ) (s : Db W)
        → Rests false false s
        → is_due timeout s ≡ false
        → Ticks false timeout s (idle_tick e timeout s)
    unfolding is_due
    idle-Ticks timeout s h due =
        done-Ticks timeout s s h (tick_keeps timeout s h.op_state due)
          (
            λ none_open. inl none_open,
            λ o. elim o [ inl none_open ↦ none_open | inr (idle, taken) ↦ ground arith ],
          )
          (inr (refl, refl))

    -- From a state that is at rest but for `txOpMu`, a tick of the monitor waits if `txOpMu` is
    -- locked. Otherwise it ends: no transaction is open after it just if none was open or the open
    -- one has been idle for longer than the timeout and SQLite takes the ROLLBACK; a transaction
    -- that stays open keeps its ID and owner; the state is at rest, and the queue lengths and the
    -- account of transactions are kept; this if the generated transaction IDs are not empty.
    pub tick_closes :
        (timeout : ℕ) (op : Bool) (s : Db W)
        → Rests op false s
        → Ticks op timeout s (idle_tick e timeout s)
    tick_closes timeout true s h = tick_waits timeout s h.op_state
    tick_closes timeout false s h = elim (Bool-cases (is_due timeout s)) [
      | inl due ↦ due-Ticks timeout s (roll_back s).0 h due refl
      | inr kept ↦ idle-Ticks timeout s h kept
    ]
