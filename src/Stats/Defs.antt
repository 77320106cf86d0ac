-- ===== src/Stats/Defs.antt =====
-- internal/stats: the counters of each minute and the queue lengths.
use nsqlite.Prelude.{
  ℕ, ◌-◌, ◌*◌, ◌%◌, List, [], ◌∷◌, Option, none, some, ltb, ◌==◌, if◌then◌else◌, inc, dec,
}

-- Times are nanoseconds since the Unix epoch, in UTC.
abbrev pub second : ℕ
second = 1_000_000_000

abbrev pub minute : ℕ
minute = 60 * 1_000_000_000

abbrev pub hour : ℕ
hour = 3600 * 1_000_000_000

-- Each atomic.Int64 is its bit pattern.
pub record MinuteData : Type 0 where
  pub reads : ℕ
  pub writes : ℕ
  pub begins : ℕ
  pub commits : ℕ
  pub rollbacks : ℕ
  pub errors : ℕ
  pub http_requests : ℕ

-- The key of a minute is its first nanosecond, which is what RFC 3339 prints.
pub record DbStats : Type 0 where
  pub started_at : ℕ
  pub minutes : List (ℕ × MinuteData)
  pub queued_begins : ℕ
  pub queued_writes : ℕ
  pub queued_http_requests : ℕ

-- `&minuteData{}`
abbrev pub empty_minute : MinuteData
empty_minute = record {
  reads = 0;
  writes = 0;
  begins = 0;
  commits = 0;
  rollbacks = 0;
  errors = 0;
  http_requests = 0;
}

unfoldable pub new_db_stats : ℕ → DbStats
new_db_stats now = record {
  started_at = now;
  minutes = [];
  queued_begins = 0;
  queued_writes = 0;
  queued_http_requests = 0;
}

-- sync.Map by its entries.
unfoldable pub load : ℕ → List (ℕ × MinuteData) → Option MinuteData
load k [] = none
load k ((j, md) ∷ m) = if j == k then some md else load k m

-- The pointer to a minute's counters is the key of its entry.
unfoldable pub update :
    ℕ → (MinuteData → MinuteData) → List (ℕ × MinuteData) → List (ℕ × MinuteData)
update k f [] = []
update k f ((j, md) ∷ m) = if j == k then (j, f md) ∷ m else (j, md) ∷ update k f m

unfoldable pub load_or_store : ℕ → MinuteData → List (ℕ × MinuteData) → List (ℕ × MinuteData)
load_or_store k new [] = (k, new) ∷ []
load_or_store k new ((j, md) ∷ m) = if j == k then (j, md) ∷ m else (j, md) ∷ load_or_store k new m

-- `Truncate(time.Minute)`
abbrev pub minute_key : ℕ → ℕ
minute_key now = now - now % minute

unfoldable pub get_or_create_minute_data : ℕ → List (ℕ × MinuteData) → List (ℕ × MinuteData)
unfolding load load_or_store
get_or_create_minute_data now m = elim (load (minute_key now) m) [
  | none ↦ load_or_store (minute_key now) empty_minute m
  | some md ↦ m
]

-- One counter of the current minute, raised.
unfoldable pub add_to_minute : (MinuteData → MinuteData) → ℕ → DbStats → DbStats
unfolding get_or_create_minute_data update
add_to_minute f now s = record s {
  minutes = update (minute_key now) f (get_or_create_minute_data now s.minutes);
}

unfoldable pub inc_reads : ℕ → DbStats → DbStats
inc_reads = add_to_minute (λ md. record md { reads = inc md.reads })

unfoldable pub inc_writes : ℕ → DbStats → DbStats
inc_writes = add_to_minute (λ md. record md { writes = inc md.writes })

unfoldable pub inc_begins : ℕ → DbStats → DbStats
inc_begins = add_to_minute (λ md. record md { begins = inc md.begins })

unfoldable pub inc_commits : ℕ → DbStats → DbStats
inc_commits = add_to_minute (λ md. record md { commits = inc md.commits })

unfoldable pub inc_rollbacks : ℕ → DbStats → DbStats
inc_rollbacks = add_to_minute (λ md. record md { rollbacks = inc md.rollbacks })

unfoldable pub inc_errors : ℕ → DbStats → DbStats
inc_errors = add_to_minute (λ md. record md { errors = inc md.errors })

unfoldable pub inc_http_requests : ℕ → DbStats → DbStats
inc_http_requests = add_to_minute (λ md. record md { http_requests = inc md.http_requests })

unfoldable pub inc_queued_begins : DbStats → DbStats
inc_queued_begins s = record s { queued_begins = inc s.queued_begins }

unfoldable pub dec_queued_begins : DbStats → DbStats
dec_queued_begins s = record s { queued_begins = dec s.queued_begins }

unfoldable pub inc_queued_writes : DbStats → DbStats
inc_queued_writes s = record s { queued_writes = inc s.queued_writes }

unfoldable pub dec_queued_writes : DbStats → DbStats
dec_queued_writes s = record s { queued_writes = dec s.queued_writes }

unfoldable pub inc_queued_http_requests : DbStats → DbStats
inc_queued_http_requests s = record s { queued_http_requests = inc s.queued_http_requests }

unfoldable pub dec_queued_http_requests : DbStats → DbStats
dec_queued_http_requests s = record s { queued_http_requests = dec s.queued_http_requests }

-- One round of runCleanupWorker: minutes that begin before the cutoff are deleted.
unfoldable pub delete_before : ℕ → List (ℕ × MinuteData) → List (ℕ × MinuteData)
delete_before cutoff [] = []
delete_before cutoff ((k, md) ∷ m) =
    let rest = delete_before cutoff m in if ltb k cutoff then rest else (k, md) ∷ rest

unfoldable pub cleanup : ℕ → DbStats → DbStats
unfolding delete_before
cleanup now s = record s { minutes = delete_before (now - 24 * hour) s.minutes }
