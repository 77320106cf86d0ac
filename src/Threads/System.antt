-- ===== src/Threads/System.antt =====
-- The calls of the database at once, their accesses in any order.
use mathlib.Core.Logic.{ite}
use native.Mathlib.Decide.{ℕ_discrete}
use nsqlite.Prelude.{ℕ, ◌≡◌, true, false}
use nsqlite.Stats.Defs.{cleanup}
use nsqlite.Db.Types.{Engine}
use nsqlite.Db.State.{Db}
use nsqlite.Db.Invariant.{new_db}
use nsqlite.Threads.Program.{
  Mutex, Use, Program, finish, lock, unlock, access, is_locked, set_locked,
}
use nsqlite.Threads.Calls.{Answer, ticked, Call, program}

-- One access of one thread. A thread at the lock of a locked mutex waits, and one at the unlock of
-- an unlocked mutex would be Go's fatal error: neither moves.
pub data Move {W A : Type 0} (s : Db W) : Program W A → Db W → Program W A → Type 0 where
  locks :
      (m : Mutex) (p : Program W A)
      → is_locked m s ≡ false
      → Move s (lock m p) (set_locked m true s) p
  unlocks :
      (m : Mutex) (p : Program W A)
      → is_locked m s ≡ true
      → Move s (unlock m p) (set_locked m false s) p
  accesses :
      (u : Use) (f : Db W → Db W) (k : Db W → Program W A) → Move s (access u f k) (f s) (k s)

abbrev pub update {ℓ} : {A : Type ℓ} → (ℕ → A) → ℕ → A → ℕ → A
update f i a j = ite (ℕ_discrete i j) a (f j)

pub record System (W : Type 0) : Type 0 where
  pub db : Db W
  pub pc : ℕ → Program W Answer

module _ {W : Type 0} (e : Engine W) where
  -- A thread whose call has ended makes the next; a thread moves; the environment changes; a round
  -- of the cleanup worker is made.
  pub data Step (s : System W) : System W → Type 0 where
    starts :
        (i : ℕ) (a : Answer) (c : Call)
        → s.pc i ≡ finish a
        → Step s (record s { pc = update s.pc i (program e c) })
    moves :
        (i : ℕ) {t : Db W} {p : Program W Answer}
        → Move s.db (s.pc i) t p
        → Step s (record { db = t; pc = update s.pc i p })
    turns : (w : W) → Step s (record s { db = record s.db { world = w } })
    cleans :
        Step s (record s { db = record s.db { stats = cleanup (e.now s.db.world) s.db.stats } })

  abbrev pub init : W → System W
  init w = record { db = new_db e w; pc = λ i. finish ticked }

  pub data Reach (w : W) : System W → Type 0 where
    start : Reach w (init w)
    later : {s t : System W} → Reach w s → Step s t → Reach w t
