-- ===== src/Threads/Invariant.antt =====
-- What holds of the shared state and of all threads, whatever the order of their accesses.
use nsqlite.Prelude.{ℕ, ◌≡◌, ◌⊎◌, inl, inr, true, false, is_empty, arith, ◌≢◌}
use nsqlite.Stats.Defs.{DbStats}
use nsqlite.Db.State.{Db}
use nsqlite.Threads.Calls.{Answer}
use nsqlite.Threads.Program.{Mutex, tx_mu, tx_op_mu, Program, is_locked, set_locked}
use nsqlite.Threads.Discipline.{
  Held, Knows, Frames, Change, keeps, learns, opens, closes, holds, with_mutex, without_mutex,
  MayLock, Obeys,
}
use nsqlite.Threads.InsideObeys.{IsFree}
use nsqlite.Threads.OutsideObeys.{Frees}
use nsqlite.Threads.System.{Move, locks, unlocks, accesses, update, System}

-- Who has a locked mutex: a thread, or for `txMu` the open transaction.
abbrev pub Owned : {W : Type 0} → Mutex → Db W → (ℕ → Held) → Type 0
Owned m s held = ((m ≡ tx_mu) × (is_empty s.tx_id ≡ false)) ⊎ ((i : ℕ) × (holds m (held i) ≡ true))

Mutex-cases : (m n : Mutex) → (m ≡ n) ⊎ (m ≢ n)
Mutex-cases m n = ground arith

module _ {W : Type 0} where
  pub record Inv (s : System W) (held : ℕ → Held) : Type 0 where
    pub obeys : (i : ℕ) → Obeys Frees (held i) (s.pc i)
    pub knows : (i : ℕ) → Knows (held i) s.db
    pub one : (m : Mutex) (i j : ℕ) → holds m (held i) ≡ true → holds m (held j) ≡ true → i ≡ j
    pub owned : (m : Mutex) → is_locked m s.db ≡ true → Owned m s.db held
    pub open_locked : is_empty s.db.tx_id ≡ false → s.db.tx_mu ≡ true

  module _ {s : System W} {held : ℕ → Held} (inv : Inv s held) (i : ℕ) where
    -- A mutex whose owner stays the same.
    Owned-keep :
        (n : Mutex) (t : Db W) (h' : Held)
        → is_locked n s.db ≡ true
        → (holds n (held i) ≡ true → holds n h' ≡ true)
        → (n ≡ tx_mu → is_empty s.db.tx_id ≡ false → is_empty t.tx_id ≡ false)
        → Owned n t (update held i h')
    Owned-keep n t h' locked keep still_open = elim (inv.owned n locked) [
      | inl by_tx ↦ inl (ground (arith, still_open))
      | inr (j, held_j) ↦ inr (j, ground (arith, keep))
    ]

    locks-one :
        (m n : Mutex) (a b : ℕ)
        → is_locked m s.db ≡ false
        → holds n (update held i (with_mutex m (held i)) a) ≡ true
        → holds n (update held i (with_mutex m (held i)) b) ≡ true
        → a ≡ b
    locks-one m n a b free ha hb =
        ground (arith, inv.one n a b, inv.knows a, inv.knows b, inv.knows i)

    locks-Owned :
        (m n : Mutex)
        → is_locked n (set_locked m true s.db) ≡ true
        → Owned n (set_locked m true s.db) (update held i (with_mutex m (held i)))
    locks-Owned m n k = elim (Mutex-cases m n) [
      | inl same ↦ inr (i, ground arith)
      | inr other ↦
          Owned-keep n (set_locked m true s.db) (with_mutex m (held i)) (ground arith)
            (ground arith) (ground arith)
    ]

    locks-Inv :
        (m : Mutex) (p : Program W Answer)
        → is_locked m s.db ≡ false
        → MayLock m (held i)
        → Obeys Frees (with_mutex m (held i)) p
        → Inv
            (record { db = set_locked m true s.db; pc = update s.pc i p })
            (update held i (with_mutex m (held i)))
    locks-Inv m p free may o = record {
      obeys = λ j. ground (arith, inv.obeys j);
      knows = λ j. ground (arith, inv.knows i, inv.knows j, inv.open_locked);
      one = λ n a b. locks-one m n a b free;
      owned = locks-Owned m;
      open_locked = ground (arith, inv.open_locked);
    }

    unlocks-Owned :
        (m n : Mutex)
        → is_locked n (set_locked m false s.db) ≡ true
        → Owned n (set_locked m false s.db) (update held i (without_mutex m (held i)))
    unlocks-Owned m n k = elim (Mutex-cases m n) [
      | inl same ↦ absurd (ground arith)
      | inr other ↦
          Owned-keep n (set_locked m false s.db) (without_mutex m (held i)) (ground arith)
            (ground arith) (ground arith)
    ]

    unlocks-Inv :
        (m : Mutex) (p : Program W Answer)
        → holds m (held i) ≡ true
        → Obeys Frees (without_mutex m (held i)) p
        → Inv
            (record { db = set_locked m false s.db; pc = update s.pc i p })
            (update held i (without_mutex m (held i)))
    unlocks-Inv m p own o = record {
      obeys = λ j. ground (arith, inv.obeys j);
      knows = λ j. ground (arith, inv.knows i, inv.knows j, inv.open_locked, inv.one m i j);
      one = λ n a b ha hb. ground (arith, inv.one n a b);
      owned = unlocks-Owned m;
      open_locked = ground (arith, inv.open_locked, inv.knows i);
    }

    -- What an access leaves to prove, with what the thread holds after it.
    abbrev After : Db W → Program W Answer → Held → Type 0
    After t p h' = Inv (record { db = t; pc = update s.pc i p }) (update held i h')

    Change-Owned :
        (t : Db W) (h' : Held)
        → Frames s.db t
        → Change (held i) s.db t h'
        → (m : Mutex) → is_locked m t ≡ true
        → Owned m t (update held i h')
    Change-Owned t h' same (keeps e) m k =
        Owned-keep m t h' (ground arith) (ground arith) (ground arith)
    Change-Owned t h' same (learns e own) m k =
        Owned-keep m t h' (ground arith) (ground arith) (ground arith)
    Change-Owned t h' same (opens own e) m k = elim (Mutex-cases m tx_mu) [
      | inl tx ↦ inl (tx, e)
      | inr other ↦ Owned-keep m t h' (ground arith) (ground arith) (ground arith)
    ]
    Change-Owned t h' same (closes is_open free e) m k = elim (Mutex-cases m tx_mu) [
      | inl tx ↦ inr (i, ground arith)
      | inr other ↦ Owned-keep m t h' (ground arith) (ground arith) (ground arith)
    ]

    accesses-Inv :
        (t : Db W) (p : Program W Answer) (h' : Held)
        → Frames s.db t
        → Change (held i) s.db t h'
        → Obeys Frees h' p
        → After t p h'
    accesses-Inv t p h' same (keeps e) o = record {
      obeys = λ j. ground (arith, inv.obeys j);
      knows = λ j. ground (arith, inv.knows i, inv.knows j, same);
      one = λ n a b ha hb. ground (arith, inv.one n a b);
      owned = Change-Owned t h' same (keeps e);
      open_locked = ground (arith, inv.open_locked, same);
    }
    accesses-Inv t p h' same (learns e own) o = record {
      obeys = λ j. ground (arith, inv.obeys j);
      knows = λ j. ground (arith, inv.knows i, inv.knows j, same);
      one = λ n a b ha hb. ground (arith, inv.one n a b);
      owned = Change-Owned t h' same (learns e own);
      open_locked = ground (arith, inv.open_locked, same);
    }
    accesses-Inv t p h' same (opens own e) o = record {
      obeys = λ j. ground (arith, inv.obeys j);
      knows = λ j. ground (arith, inv.knows i, inv.knows j, inv.one tx_mu i j, same);
      one = λ n a b ha hb. ground (arith, inv.one n a b);
      owned = Change-Owned t h' same (opens own e);
      open_locked = ground (arith, inv.knows i, same);
    }
    accesses-Inv t p h' same (closes is_open free e) o = record {
      obeys = λ j. ground (arith, inv.obeys j);
      knows = λ j.
          ground (arith, inv.knows i, inv.knows j, inv.one tx_op_mu i j, inv.open_locked, same);
      one = λ n a b ha hb. ground (arith, inv.one n a b, inv.knows a, inv.knows b, inv.knows i);
      owned = Change-Owned t h' same (closes is_open free e);
      open_locked = ground (arith);
    }

    pub Move-Inv :
        {p p' : Program W Answer} {t : Db W}
        → Move s.db p t p'
        → Obeys Frees (held i) p
        → (h' : Held) × After t p' h'
    unfolding Obeys
    Move-Inv (locks m p free) (may, o) = (with_mutex m (held i), locks-Inv m p free may o)
    Move-Inv (unlocks m p locked) (own, o) = (without_mutex m (held i), unlocks-Inv m p own o)
    Move-Inv (accesses u f k) (may, o) =
        let (same, (h', change, o')) = o s.db (inv.knows i) in
        (h', accesses-Inv (f s.db) (k s.db) h' same change o')

    -- The thread `i` makes a call.
    pub starts-Inv :
        (p : Program W Answer)
        → IsFree (held i)
        → Obeys Frees (held i) p
        → Inv (record s { pc = update s.pc i p }) held
    starts-Inv p free o = record {
      obeys = λ j. ground (arith, inv.obeys j);
      knows = inv.knows;
      one = inv.one;
      owned = inv.owned;
      open_locked = inv.open_locked;
    }

  pub turns-Inv :
      {s : System W} {held : ℕ → Held} (w : W)
      → Inv s held
      → Inv (record s { db = record s.db { world = w } }) held
  turns-Inv w inv = record {
    obeys = inv.obeys;
    knows = λ j. ground (arith, inv.knows j);
    one = inv.one;
    owned = λ m k. ground (arith, inv.owned m);
    open_locked = inv.open_locked;
  }

  pub cleans-Inv :
      {s : System W} {held : ℕ → Held} (stats : DbStats)
      → Inv s held
      → Inv (record s { db = record s.db { stats = stats } }) held
  cleans-Inv stats inv = record {
    obeys = inv.obeys;
    knows = λ j. ground (arith, inv.knows j);
    one = inv.one;
    owned = λ m k. ground (arith, inv.owned m);
    open_locked = inv.open_locked;
  }
