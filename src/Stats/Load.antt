-- ===== src/Stats/Load.antt =====
-- internal/stats/load_stats.go: the snapshot that System.status reports.
use nsqlite.Prelude.{ℕ, ◌-◌, List, [], ◌∷◌, map, ltb, if◌then◌else◌, add_int64}
use nsqlite.Stats.Defs.{MinuteData, DbStats, empty_minute}

-- `Totals` has the counters of `MinuteData`, and `Stat` adds the minute.
pub record Stat : Type 0 where
  pub minute : ℕ
  pub counters : MinuteData

pub record LoadedStats : Type 0 where
  pub started_at : ℕ
  pub uptime : ℕ
  pub queued_begins : ℕ
  pub queued_writes : ℕ
  pub queued_http_requests : ℕ
  pub totals : MinuteData
  pub stats : List Stat

-- The seven `+=` of one round of `Range`.
unfoldable pub add_counters : MinuteData → MinuteData → MinuteData
add_counters t md = record {
  reads = add_int64 t.reads md.reads;
  writes = add_int64 t.writes md.writes;
  begins = add_int64 t.begins md.begins;
  commits = add_int64 t.commits md.commits;
  rollbacks = add_int64 t.rollbacks md.rollbacks;
  errors = add_int64 t.errors md.errors;
  http_requests = add_int64 t.http_requests md.http_requests;
}

unfoldable pub range_totals : MinuteData → List (ℕ × MinuteData) → MinuteData
unfolding add_counters
range_totals t [] = t
range_totals t ((k, md) ∷ m) = range_totals (add_counters t md) m

abbrev pub stat_of : ℕ × MinuteData → Stat
stat_of (k, md) = record { minute = k; counters = md }

-- `sort.Slice` with `tj.Before(ti)`. The keys are distinct, so any sort gives this list.
unfoldable pub insert_stat : Stat → List Stat → List Stat
insert_stat x [] = x ∷ []
insert_stat x (y ∷ ys) = if ltb x.minute y.minute then y ∷ insert_stat x ys else x ∷ y ∷ ys

unfoldable pub sort_stats : List Stat → List Stat
unfolding insert_stat
sort_stats [] = []
sort_stats (x ∷ xs) = insert_stat x (sort_stats xs)

unfoldable pub load_stats : ℕ → DbStats → LoadedStats
unfolding range_totals sort_stats
load_stats now s = record {
  started_at = s.started_at;
  uptime = now - s.started_at;
  queued_begins = s.queued_begins;
  queued_writes = s.queued_writes;
  queued_http_requests = s.queued_http_requests;
  totals = range_totals empty_minute s.minutes;
  stats = sort_stats (map stat_of s.minutes);
}
