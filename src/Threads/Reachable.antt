-- ===== src/Threads/Reachable.antt =====
-- The invariant in every state that the threads reach.
use nsqlite.Prelude.{ℕ, ◌≡◌, refl, false, is_empty, arith}
use nsqlite.Stats.Defs.{cleanup}
use nsqlite.Db.Types.{Engine}
use nsqlite.Threads.Program.{Program, finish, lock, unlock, access}
use nsqlite.Threads.Discipline.{Held, bare, Obeys}
use nsqlite.Threads.Calls.{Answer, program}
use nsqlite.Threads.InsideObeys.{IsFree}
use nsqlite.Threads.CallsObey.{program-Obeys}
use nsqlite.Threads.OutsideObeys.{Frees}
use nsqlite.Threads.System.{
  update, System, Step, starts, moves, turns, cleans, init, Reach, start, later,
}
use nsqlite.Threads.Invariant.{Inv, Move-Inv, starts-Inv, turns-Inv, cleans-Inv}

module _ {W : Type 0} (e : Engine W)
    (uuid_nonempty : (w : W) → is_empty (e.new_uuid w).0 ≡ false) where
  finish-IsFree :
      (p : Program W Answer) (h : Held) {a : Answer} → p ≡ finish a → Obeys Frees h p → IsFree h
  unfolding Obeys
  finish-IsFree (finish a) h k o = o
  finish-IsFree (lock m p) h k o = absurd (ground arith)
  finish-IsFree (unlock m p) h k o = absurd (ground arith)
  finish-IsFree (access u f p) h k o = absurd (ground arith)

  init-Inv : (w : W) → Inv (init e w) (λ i. bare)
  unfolding Obeys
  init-Inv w = record {
    obeys = λ j. (refl, refl, refl);
    knows = λ j. ground arith;
    one = λ m a b. ground arith;
    owned = λ m. ground arith;
    open_locked = ground arith;
  }

  Step-Inv :
      {s t : System W} (held : ℕ → Held)
      → Step e s t
      → Inv s held
      → (held' : ℕ → Held) × Inv t held'
  Step-Inv held (starts i a c k) inv =
      let free = finish-IsFree _ (held i) k (inv.obeys i) in
      (held, starts-Inv inv i (program e c) free (program-Obeys e uuid_nonempty c (held i) free))
  Step-Inv {s} held (moves i {t} {p} mv) inv =
      let (h', next) = Move-Inv inv i mv (inv.obeys i) in (update held i h', next)
  Step-Inv held (turns w) inv = (held, turns-Inv w inv)
  Step-Inv {s} held cleans inv = (held, cleans-Inv (cleanup (e.now s.db.world) s.db.stats) inv)

  pub Reach-Inv : {w : W} {s : System W} → Reach e w s → (held : ℕ → Held) × Inv s held
  Reach-Inv {w} start = (λ i. bare, init-Inv w)
  Reach-Inv (later r st) = let (held, inv) = Reach-Inv r in Step-Inv held st inv
