-- ===== src/Stats/Balance.antt =====
-- Transactions begun and ended, by the counters.
use nsqlite.Prelude.{ℕ, ◌+◌, ◌%◌, ◌^◌, ◌≡◌, refl, arith, inc}
use nsqlite.Stats.Defs.{
  DbStats, inc_reads, inc_writes, inc_begins, inc_commits, inc_rollbacks, inc_errors,
  inc_http_requests, add_to_minute,
}
use nsqlite.Stats.Counters.{total}
use nsqlite.Stats.Report.{
  Counter, reads, begins, commits, rollbacks, count_of, inc_counter, total-inc_counter,
}

abbrev pub begun : DbStats → ℕ
begun s = total (count_of begins) s.minutes

abbrev pub ended : DbStats → ℕ
ended s = total (count_of commits) s.minutes + total (count_of rollbacks) s.minutes

-- From `s` to `t`, `x` transactions more are begun and `y` more are ended, modulo 2^64, and the
-- queues have the same length.
pub record Moves (s t : DbStats) (x y : ℕ) : Type 0 where
  pub begin : begun t % 2 ^ 64 ≡ (begun s + x) % 2 ^ 64
  pub end : ended t % 2 ^ 64 ≡ (ended s + y) % 2 ^ 64
  pub queued_begins : t.queued_begins ≡ s.queued_begins
  pub queued_writes : t.queued_writes ≡ s.queued_writes
  pub queued_http_requests : t.queued_http_requests ≡ s.queued_http_requests

pub Moves-refl : (s : DbStats) → Moves s s 0 0
Moves-refl s = omega arith

pub Moves-trans :
    {s t u : DbStats} {x y v w : ℕ} → Moves s t x y → Moves t u v w → Moves s u (x + v) (y + w)
Moves-trans m n = omega arith

abbrev pub begun_by : Counter → ℕ
begun_by begins = 1
begun_by _ = 0

abbrev pub ended_by : Counter → ℕ
ended_by commits = 1
ended_by rollbacks = 1
ended_by _ = 0

inc_counter-queues :
    (c : Counter) (now : ℕ) (s : DbStats)
    → ((inc_counter c now s).queued_begins ≡ s.queued_begins)
      × ((inc_counter c now s).queued_writes ≡ s.queued_writes)
      × ((inc_counter c now s).queued_http_requests ≡ s.queued_http_requests)
unfolding inc_reads inc_writes inc_begins inc_commits inc_rollbacks inc_errors inc_http_requests
    add_to_minute
inc_counter-queues reads now s = (refl, refl, refl)
inc_counter-queues _ now s = (refl, refl, refl)

pub inc_counter-Moves :
    (c : Counter) (now : ℕ) (s : DbStats) → Moves s (inc_counter c now s) (begun_by c) (ended_by c)
unfolding inc
inc_counter-Moves reads now s = ground (
  arith,
  total-inc_counter reads begins now s,
  total-inc_counter reads commits now s,
  total-inc_counter reads rollbacks now s,
  inc_counter-queues reads now s,
)
inc_counter-Moves c now s = ground (
  arith,
  total-inc_counter c begins now s,
  total-inc_counter c commits now s,
  total-inc_counter c rollbacks now s,
  inc_counter-queues c now s,
)
