-- ===== src/Threads/Schedule.antt =====
-- Reachable states by evaluation: calls are made and threads are moved in a given order.
use nsqlite.Prelude.{
  ℕ, ◌≡◌, refl, inl, inr, Bool, true, false, List, [], ◌∷◌, Option, none, some, ◌⊎◌,
}
use nsqlite.Db.Types.{Engine}
use nsqlite.Db.State.{Db}
use nsqlite.Threads.Calls.{Call}
use nsqlite.Threads.Program.{Program, finish, lock, unlock, access, is_locked, set_locked}
use nsqlite.Threads.System.{
  Move, locks, unlocks, accesses, System, starts, moves, init, Reach, start, later,
}

pub data Event : Type 0 where
  calls : ℕ → Call → Event
  goes : ℕ → Event

abbrev is_either : (b : Bool) → (b ≡ true) ⊎ (b ≡ false)
is_either true = inl refl
is_either false = inr refl

unfoldable pub next_move :
    {W A : Type 0} (s : Db W) (p : Program W A)
    → Option ((t : Db W) × (p' : Program W A) × Move s p t p')
next_move s (finish a) = none
next_move s (lock m p) = elim (is_either (is_locked m s)) [
  | inl locked ↦ none
  | inr free ↦ some (set_locked m true s, p, locks m p free)
]
next_move s (unlock m p) = elim (is_either (is_locked m s)) [
  | inl locked ↦ some (set_locked m false s, p, unlocks m p locked)
  | inr free ↦ none
]
next_move s (access u f k) = some (f s, k s, accesses u f k)

-- The end of the call that the program has come to.
unfoldable pub ended : {W A : Type 0} (p : Program W A) → Option ((a : A) × (p ≡ finish a))
ended (finish a) = some (a, refl)
ended p = none

module _ {W : Type 0} (e : Engine W) where
  pub record Run (w : W) : Type 0 where
    pub last : System W
    pub reach : Reach e w last

  unfoldable pub happens : {w : W} → Run w → Event → Run w
  unfolding next_move ended
  happens r (calls i c) = elim (ended (r.last.pc i)) [
    | none ↦ r
    | some (a, k) ↦ record { last = _; reach = later r.reach (starts i a c k) }
  ]
  happens r (goes i) = elim (next_move r.last.db (r.last.pc i)) [
    | none ↦ r
    | some (t, p, mv) ↦ record { last = _; reach = later r.reach (moves i mv) }
  ]

  unfoldable pub run : {w : W} → Run w → List Event → Run w
  unfolding happens
  run r [] = r
  run r (x ∷ xs) = run (happens r x) xs

  abbrev pub begins : (w : W) → Run w
  begins w = record { last = init e w; reach = start }
