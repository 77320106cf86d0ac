-- ===== src/Stats/Tests.antt =====
-- The theorems on the statistics at concrete states.
use nsqlite.Prelude.{◌*◌, ◌≡◌, [], ◌∷◌, none, inc}
use nsqlite.Stats.Defs.{
  DbStats, empty_minute, minute, hour, load, cleanup, new_db_stats, inc_writes,
}
use nsqlite.Stats.Load.{load_stats}
use nsqlite.Stats.Report.{writes, count_of, load_stats-inc_counter, load-cleanup}

abbrev two_minutes : DbStats
two_minutes = record (new_db_stats 0) {
  minutes =
      (0, record empty_minute { writes = 3 }) ∷ (minute, record empty_minute { reads = 1 }) ∷ [];
}

load_stats-inc_counter_example :
    count_of writes (load_stats 9 (inc_writes 70_000_000_000 two_minutes)).totals
    ≡ inc (count_of writes (load_stats 9 two_minutes).totals)
load_stats-inc_counter_example = load_stats-inc_counter writes writes 70_000_000_000 9 two_minutes

load-cleanup_example : load 0 (cleanup (25 * hour) two_minutes).minutes ≡ none
load-cleanup_example = load-cleanup (25 * hour) 0 two_minutes
