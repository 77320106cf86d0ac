-- ===== src/Db/Invariant.antt =====
-- The calls of `DB` in any order: the state between calls.
use nsqlite.Prelude.{ℕ, ◌+◌, ◌-◌, ◌%◌, ◌^◌, ◌≡◌, true, false, not, ◌&&◌, [], is_empty, arith, ltb}
use nsqlite.Stats.Defs.{new_db_stats, cleanup}
use nsqlite.Stats.Counters.{total}
use nsqlite.Stats.Balance.{begun, ended, inc_counter-Moves}
use nsqlite.Stats.Report.{errors}
use nsqlite.Stats.Forget.{forgotten_begun, forgotten_ended, cleanup-begun, cleanup-ended}
use nsqlite.Db.Types.{Query, QueryResult, Result, ok, err, Engine}
use nsqlite.Db.State.{Db, Outcome, done, waits, fatal}
use nsqlite.Db.Query.{query_locked, query, count_error, idle_tick, close}
use nsqlite.Db.Effect.{Rests, opened, Effect, Ensures, MayWait}
use nsqlite.Db.Calls.{query_locked-Effect, roll_back_if-Effect}
use nsqlite.Db.Steps.{IsCounted}

module _ {W : Type 0} (e : Engine W) where
  -- The state that `NewDB` builds.
  abbrev pub new_db : W → Db W
  new_db w = record {
    world = w;
    stats = new_db_stats (e.now w);
    tx_id = [];
    tx_owner = [];
    tx_last_used = e.now w;
    tx_mu = false;
    tx_op_mu = false;
    write_mu = false;
  }

module _ {W : Type 0} (e : Engine W)
    (uuid_nonempty : (w : W) → is_empty (e.new_uuid w).0 ≡ false) where
  count_error-Effect :
      (r : Result QueryResult) (s t : Db W)
      → Effect false false s t
      → Ensures ⊥ (λ _ u. Effect false false s u) (count_error e r t)
  count_error-Effect (ok q) s t f = f
  count_error-Effect (err x) s t f =
      ground (arith, inc_counter-Moves errors (e.now t.world) t.stats)

  count_outcome-Effect :
      (May : Type 0) (s : Db W) (o : Outcome W (Result QueryResult))
      → Ensures May (λ _ t. Effect false false s t) o
      → Ensures May
          (λ _ t. Effect false false s t)
          (elim o [ done r t ↦ count_error e r t | waits t ↦ waits t | fatal ↦ fatal ])
  count_outcome-Effect May s (done (ok q) t) f = f
  count_outcome-Effect May s (done (err x) t) f = count_error-Effect (err x) s t f
  count_outcome-Effect May s (waits t) m = m
  count_outcome-Effect May s fatal m = m

  -- From a state of rest whose queue lengths are in range, a call of `Query` that ends leaves a
  -- state of rest, meets no fatal error of a mutex, keeps the queue lengths and the account of
  -- transactions, and waits only if it has no transaction ID and a transaction is open; this if the
  -- generated transaction IDs are not empty.
  pub query-Effect :
      (q : Query) (s : Db W)
      → Rests false false s
      → IsCounted s.stats
      → Ensures (MayWait q s) (λ _ t. Effect false false s t) (query e q s)
  unfolding query
  query-Effect q s h n =
      count_outcome-Effect (MayWait q s) s (query_locked e q s)
        (query_locked-Effect e uuid_nonempty q s h n)

  -- From a state of rest, a tick of the idle monitor never waits, meets no fatal error of a mutex,
  -- leaves a state of rest and keeps the queue lengths and the account of transactions; this if the
  -- generated transaction IDs are not empty.
  pub idle_tick-Effect :
      (timeout : ℕ) (s : Db W)
      → Rests false false s
      → Ensures ⊥ (λ _ t. Effect false false s t) (idle_tick e timeout s)
  unfolding idle_tick
  idle_tick-Effect timeout s h = ground (
    arith,
    roll_back_if-Effect e uuid_nonempty
        (not (is_empty s.tx_id) && ltb timeout (e.now s.world - s.tx_last_used)) s.tx_id
        (record s { tx_op_mu = true }),
  )

  -- From a state of rest, `Close` never waits for a mutex, meets no fatal error of a mutex, leaves
  -- a state of rest and keeps the queue lengths and the account of transactions; this if the
  -- generated transaction IDs are not empty.
  pub close-Effect :
      (s : Db W) → Rests false false s → Ensures ⊥ (λ _ t. Effect false false s t) (close e s)
  unfolding close
  close-Effect s h = ground (
    arith,
    roll_back_if-Effect e uuid_nonempty (not (is_empty s.tx_id)) s.tx_id
        (record s { tx_op_mu = true }),
  )

  -- What can happen to the database: a call that ends, a tick of the idle monitor, a round of the
  -- cleanup worker of the statistics, and whatever the environment does, the passing of time
  -- included. The numbers are those of the transactions begun and ended whose counts it forgets.
  pub data Step (s : Db W) : (x y : ℕ) → Db W → Type 0 where
    by_query :
        (q : Query) (r : Result QueryResult) {t : Db W} → query e q s ≡ done r t → Step s 0 0 t
    by_tick : (timeout : ℕ) {t : Db W} → idle_tick e timeout s ≡ done tt t → Step s 0 0 t
    by_cleanup :
        Step s
          (forgotten_begun (e.now s.world) s.stats)
          (forgotten_ended (e.now s.world) s.stats)
          (record s { stats = cleanup (e.now s.world) s.stats })
    by_world : (w : W) → Step s 0 0 (record s { world = w })

  pub data Reach (s : Db W) : (x y : ℕ) → Db W → Type 0 where
    here : Reach s 0 0 s
    next : {t u : Db W} {x y v w : ℕ} → Reach s x y t → Step t v w u → Reach s (x + v) (y + w) u

  -- The transactions begun are those committed, those rolled back and the open one, modulo 2^64,
  -- with `x` of those begun and `y` of those ended forgotten by the statistics.
  pub record IsBalanced (x y : ℕ) (s : Db W) : Type 0 where
    pub rests : Rests false false s
    pub counted : IsCounted s.stats
    pub account : (begun s.stats + x) % 2 ^ 64 ≡ (ended s.stats + y + opened s) % 2 ^ 64

  pub Effect-IsBalanced :
      {x y : ℕ} {s t : Db W} → Effect false false s t → IsBalanced x y s → IsBalanced x y t
  Effect-IsBalanced f b = record {
    rests = f.rests;
    counted = ground (arith, f.queued_begins, f.queued_writes, b.counted);
    account = omega (arith, f.balance, b.account);
  }

  pub cleanup-IsBalanced :
      {x y : ℕ} (now : ℕ) (s : Db W)
      → IsBalanced x y s
      → IsBalanced
          (x + forgotten_begun now s.stats)
          (y + forgotten_ended now s.stats)
          (record s { stats = cleanup now s.stats })
  unfolding cleanup
  cleanup-IsBalanced now s b = record {
    rests = ground (arith, b.rests);
    counted = ground (arith, b.counted);
    account = omega (arith, b.account, cleanup-begun now s.stats, cleanup-ended now s.stats);
  }

  none_forgotten : {x y : ℕ} {s : Db W} → IsBalanced x y s → IsBalanced (x + 0) (y + 0) s
  none_forgotten b = record {
    rests = b.rests;
    counted = b.counted;
    account = omega (arith, b.account);
  }

  pub world-IsBalanced :
      {x y : ℕ} {s : Db W} (w : W) → IsBalanced x y s → IsBalanced x y (record s { world = w })
  world-IsBalanced w b = ground (arith, b)

  Step-IsBalanced :
      {x y : ℕ} {s : Db W} {v w : ℕ} {t : Db W}
      → Step s v w t
      → IsBalanced x y s
      → IsBalanced (x + v) (y + w) t
  Step-IsBalanced {s} {t} (by_query q r k) b =
      none_forgotten (Effect-IsBalanced (ground (arith, query-Effect q s b.rests b.counted)) b)
  Step-IsBalanced {s} {t} (by_tick timeout k) b =
      none_forgotten (Effect-IsBalanced (ground (arith, idle_tick-Effect timeout s b.rests)) b)
  Step-IsBalanced {s} by_cleanup b = cleanup-IsBalanced (e.now s.world) s b
  Step-IsBalanced {s} (by_world w) b = none_forgotten (world-IsBalanced w b)

  pub new_db-IsBalanced : (w : W) → IsBalanced 0 0 (new_db e w)
  unfolding new_db_stats total
  new_db-IsBalanced w = ground arith

  -- In every state that calls, ticks of the idle monitor, rounds of the cleanup of the statistics
  -- and changes of the environment, each whole, lead to from a new database, `txMu` is held just
  -- while a transaction is open, `txOpMu` and `writeMu` are free, and the transactions that the
  -- counters and the forgotten minutes count as begun are, modulo 2^64, those that they count as
  -- committed or rolled back and the open one; this if the generated transaction IDs are not empty.
  pub Reach-IsBalanced : {w : W} {x y : ℕ} {s : Db W} → Reach (new_db e w) x y s → IsBalanced x y s
  Reach-IsBalanced {w} here = new_db-IsBalanced w
  Reach-IsBalanced (next r st) = Step-IsBalanced st (Reach-IsBalanced r)
