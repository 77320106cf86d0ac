-- ===== src/Server/Status.antt =====
-- internal/server/stats.go: the answers of System.session and System.status.
use nsqlite.Prelude.{ℕ, ◌-◌, ◌*◌, ◌/◌, List, [], ◌∷◌, ◌==◌, if◌then◌else◌}
use nsqlite.Auth.Tokens.{AuthRole, admin, read_write, read_only}
use nsqlite.Stats.Defs.{second, MinuteData}
use nsqlite.Stats.Load.{Stat, LoadedStats}

-- `vdl.AuthRole`
pub data VdlAuthRole : Type 0 where
  vdl_admin vdl_read_write vdl_read_only : VdlAuthRole

unfoldable pub auth_role_to_vdl : AuthRole → VdlAuthRole
auth_role_to_vdl read_write = vdl_read_write
auth_role_to_vdl read_only = vdl_read_only
auth_role_to_vdl admin = vdl_admin

-- `vdl.Stats`, with the uptime in nanoseconds
pub record VdlStats : Type 0 where
  pub started_at : ℕ
  pub uptime : ℕ
  pub totals : MinuteData
  pub queued_begins : ℕ
  pub queued_writes : ℕ
  pub queued_http_requests : ℕ
  pub minutes : List (ℕ × MinuteData)

abbrev pub put_minute : ℕ → MinuteData → List (ℕ × MinuteData) → List (ℕ × MinuteData)
put_minute k md [] = (k, md) ∷ []
put_minute k md ((j, old) ∷ m) = if j == k then (j, md) ∷ m else (j, old) ∷ put_minute k md m

-- The loop over the minutes of the snapshot, which fills a map.
unfoldable pub put_minutes : List Stat → List (ℕ × MinuteData) → List (ℕ × MinuteData)
put_minutes [] m = m
put_minutes (row ∷ rows) m = put_minutes rows (put_minute row.minute row.counters m)

-- RFC 3339 without a fraction, read back.
abbrev pub whole_seconds : ℕ → ℕ
whole_seconds t = t / second * second

-- The time that was printed can be read, and none of them is the zero time of Go.
unfoldable pub loaded_stats_to_vdl : ℕ → LoadedStats → VdlStats
unfolding put_minutes
loaded_stats_to_vdl now loaded = record {
  started_at = whole_seconds loaded.started_at;
  uptime = now - whole_seconds loaded.started_at;
  totals = loaded.totals;
  queued_begins = loaded.queued_begins;
  queued_writes = loaded.queued_writes;
  queued_http_requests = loaded.queued_http_requests;
  minutes = put_minutes loaded.stats [];
}
