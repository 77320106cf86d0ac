-- ===== src/Threads/Safety.antt =====
-- What the mutexes give in every state that calls at once reach.
use nsqlite.Prelude.{ℕ, ◌≡◌, ◌⊎◌, inl, inr, true, false, Text, is_empty, arith, Bool-cases, subst}
use nsqlite.Db.Types.{Engine}
use nsqlite.Db.State.{Db}
use nsqlite.Threads.Calls.{Answer}
use nsqlite.Threads.Program.{
  Mutex, tx_mu, write_mu, Use, on_read_write_conn, Program, finish, lock, unlock, access, is_locked,
}
use nsqlite.Threads.Discipline.{Held, Knows, MayUse, Obeys, holds}
use nsqlite.Threads.OutsideObeys.{Frees}
use nsqlite.Threads.System.{Move, locks, unlocks, accesses, System, Reach}
use nsqlite.Threads.Invariant.{Inv}
use nsqlite.Threads.Reachable.{Reach-Inv}

-- What is held at an unlock and at an access.
module _ {W A : Type 0} (Q : Held → A → Type 0) (h : Held) where
  Obeys-unlock :
      (q : Program W A) (m : Mutex) (p : Program W A)
      → q ≡ unlock m p
      → Obeys Q h q
      → holds m h ≡ true
  unfolding Obeys
  Obeys-unlock q m p k o = (subst (λ r. Obeys Q h r) k o).0

  Obeys-access :
      (q : Program W A) (u : Use) (f : Db W → Db W) (r : Db W → Program W A)
      → q ≡ access u f r
      → Obeys Q h q
      → MayUse u h
  unfolding Obeys
  Obeys-access q u f r k o = (subst (λ x. Obeys Q h x) k o).0

-- A thread that can move.
abbrev pub CanMove : {W A : Type 0} → Db W → Program W A → Type 0
CanMove {W} {A} s p = (t : Db W) × (p' : Program W A) × Move s p t p'

-- The thread stands at a use of the read-write connection, for `tx_id`.
abbrev pub IsAtConn : {W A : Type 0} → Text → Program W A → Type 0
IsAtConn {W} {A} tx_id p =
    (f : Db W → Db W) × (k : Db W → Program W A) × (p ≡ access (on_read_write_conn tx_id) f k)

module _ {W : Type 0} {s : System W} {held : ℕ → Held} (inv : Inv s held) where
  -- A thread with `writeMu` waits for nothing.
  write_moves :
      (j : ℕ) (p : Program W Answer) (h : Held)
      → Obeys Frees h p
      → Knows h s.db
      → h.write ≡ true
      → CanMove s.db p
  unfolding Obeys
  write_moves j (finish a) h o known own = absurd (ground (arith, o))
  write_moves j (lock m p) h (may, o) known own = absurd (ground (arith, may))
  write_moves j (unlock m p) h (mine, o) known own =
      (_, _, unlocks m p (ground (arith, mine, known)))
  write_moves j (access u f k) h o known own = (_, _, accesses u f k)

  -- A thread with any mutex waits for `writeMu` at most.
  owner_moves :
      (n : Mutex) (p : Program W Answer) (h : Held)
      → Obeys Frees h p
      → Knows h s.db
      → holds n h ≡ true
      → CanMove s.db p ⊎ (s.db.write_mu ≡ true)
  unfolding Obeys
  owner_moves n (finish a) h o known own = absurd (ground (arith, o))
  owner_moves n (lock m p) h (may, o) known own = elim (Bool-cases (is_locked m s.db)) [
    | inl locked ↦ inr (ground (arith, may))
    | inr free ↦ inl (_, _, locks m p free)
  ]
  owner_moves n (unlock m p) h (mine, o) known own =
      inl (_, _, unlocks m p (ground (arith, mine, known)))
  owner_moves n (access u f k) h o known own = inl (_, _, accesses u f k)

  write_locked_moves : s.db.write_mu ≡ true → (j : ℕ) × CanMove s.db (s.pc j)
  write_locked_moves locked = elim (inv.owned write_mu locked) [
    | inl by_tx ↦ absurd (ground (arith, by_tx))
    | inr (j, own) ↦ (j, write_moves j (s.pc j) (held j) (inv.obeys j) (inv.knows j) own)
  ]

  locked_moves :
      (m : Mutex)
      → is_locked m s.db ≡ true
      → ((m ≡ tx_mu) × (is_empty s.db.tx_id ≡ false)) ⊎ ((j : ℕ) × CanMove s.db (s.pc j))
  locked_moves m locked = elim (inv.owned m locked) [
    | inl by_tx ↦ inl by_tx
    | inr (j, own) ↦ elim (owner_moves m (s.pc j) (held j) (inv.obeys j) (inv.knows j) own) [
      | inl moves ↦ inr (j, moves)
      | inr write ↦ inr (write_locked_moves write)
    ]
  ]

module _ {W : Type 0} (e : Engine W)
    (uuid_nonempty : (w : W) → is_empty (e.new_uuid w).0 ≡ false) where
  -- However calls, ticks and closings interleave, with rounds of the cleanup in between, a thread
  -- that is about to unlock a mutex finds it locked, so Go's fatal error of an unlocked mutex never
  -- comes; this if the generated transaction IDs are not empty.
  pub never_fatal :
      {w : W} {s : System W}
      → Reach e w s
      → (i : ℕ) (m : Mutex) (p : Program W Answer) → s.pc i ≡ unlock m p
      → is_locked m s.db ≡ true
  never_fatal {s} r i m p k =
      let (held, inv) = Reach-Inv e uuid_nonempty r in
      ground (arith, Obeys-unlock Frees (held i) (s.pc i) m p k (inv.obeys i), inv.knows i)

  -- However the accesses of calls, ticks of the idle monitor and closings interleave, with rounds
  -- of the cleanup in between, a thread that stands at a use of the read-write connection for a
  -- transaction ID finds that ID as the open transaction of the database (no ID for a use outside
  -- transactions), and no other thread stands at a use of that connection; this if the generated
  -- transaction IDs are not empty.
  pub conn_isolated :
      {w : W} {s : System W}
      → Reach e w s
      → (i : ℕ) {tx_id : Text} → IsAtConn tx_id (s.pc i)
      → (j : ℕ) {other : Text} → IsAtConn other (s.pc j)
      → (s.db.tx_id ≡ tx_id) × (i ≡ j)
  conn_isolated {s} r i {tx_id} (f, k, at_i) j {other} (g, l, at_j) =
      let (held, inv) = Reach-Inv e uuid_nonempty r in
      let use_i =
        Obeys-access Frees (held i) (s.pc i) (on_read_write_conn tx_id) f k at_i (inv.obeys i) in
      (
        ground (arith, use_i, inv.knows i),
        inv.one write_mu i j use_i.0
            (Obeys-access Frees (held j) (s.pc j) (on_read_write_conn other) g l at_j
              (inv.obeys j)).0,
      )

  -- However calls, ticks and closings interleave, with rounds of the cleanup in between, whenever a
  -- mutex is locked, some thread can move, or the mutex is `txMu` and a transaction is open; this
  -- if the generated transaction IDs are not empty.
  pub no_deadlock :
      {w : W} {s : System W}
      → Reach e w s
      → (m : Mutex) → is_locked m s.db ≡ true
      → ((m ≡ tx_mu) × (is_empty s.db.tx_id ≡ false)) ⊎ ((j : ℕ) × CanMove s.db (s.pc j))
  no_deadlock r m locked =
      let (held, inv) = Reach-Inv e uuid_nonempty r in locked_moves inv m locked
