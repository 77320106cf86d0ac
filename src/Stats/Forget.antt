-- ===== src/Stats/Forget.antt =====
-- What a round of the cleanup takes from the totals of the counters.
use nsqlite.Prelude.{
  ℕ, ◌+◌, ◌-◌, ◌*◌, ◌%◌, ◌^◌, ◌≡◌, refl, List, [], ◌∷◌, ltb, if◌then◌else◌, arith, add_int64,
}
use nsqlite.Stats.Defs.{MinuteData, DbStats, hour, delete_before, cleanup}
use nsqlite.Stats.Counters.{total}
use nsqlite.Stats.Report.{begins, commits, rollbacks, count_of}
use nsqlite.Stats.Balance.{begun, ended}

-- The minutes that a cleanup deletes.
unfoldable pub deleted_before : ℕ → List (ℕ × MinuteData) → List (ℕ × MinuteData)
deleted_before cutoff [] = []
deleted_before cutoff ((k, md) ∷ m) =
    let rest = deleted_before cutoff m in if ltb k cutoff then (k, md) ∷ rest else rest

total-delete_before :
    (g : MinuteData → ℕ) (cutoff : ℕ) (m : List (ℕ × MinuteData))
    → (total g (delete_before cutoff m) + total g (deleted_before cutoff m)) % 2 ^ 64
      ≡ total g m % 2 ^ 64
unfolding total delete_before deleted_before add_int64
total-delete_before g cutoff [] = refl
total-delete_before g cutoff ((k, md) ∷ m) = ground (arith, total-delete_before g cutoff m)

-- The transactions begun and ended whose counts a cleanup forgets.
abbrev pub forgotten : ℕ → DbStats → List (ℕ × MinuteData)
forgotten now s = deleted_before (now - 24 * hour) s.minutes

abbrev pub forgotten_begun : ℕ → DbStats → ℕ
forgotten_begun now s = total (count_of begins) (forgotten now s)

abbrev pub forgotten_ended : ℕ → DbStats → ℕ
forgotten_ended now s =
    total (count_of commits) (forgotten now s) + total (count_of rollbacks) (forgotten now s)

pub cleanup-begun :
    (now : ℕ) (s : DbStats)
    → (begun (cleanup now s) + forgotten_begun now s) % 2 ^ 64 ≡ begun s % 2 ^ 64
unfolding cleanup
cleanup-begun now s = total-delete_before (count_of begins) (now - 24 * hour) s.minutes

pub cleanup-ended :
    (now : ℕ) (s : DbStats)
    → (ended (cleanup now s) + forgotten_ended now s) % 2 ^ 64 ≡ ended s % 2 ^ 64
unfolding cleanup
cleanup-ended now s = omega (
  arith,
  total-delete_before (count_of commits) (now - 24 * hour) s.minutes,
  total-delete_before (count_of rollbacks) (now - 24 * hour) s.minutes,
)
