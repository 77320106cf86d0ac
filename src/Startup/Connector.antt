-- ===== src/Startup/Connector.antt =====
-- internal/db/connector.go: the queries that every new connection runs.
use nsqlite.Prelude.{
  ℕ, ◌+◌, ◌-◌, ◌/◌, ◌%◌, ◌^◌, ◌≡◌, ◌<◌, refl, Bool, true, false, List, [], ◌∷◌, ◌++◌, Text, codes,
  ltb, if◌then◌else◌, arith,
}
use nsqlite.Config.Durations.{is_nonneg, int_text}

-- `-n`, `max` and `Milliseconds` on 64-bit patterns
abbrev pub neg_int64 : ℕ → ℕ
neg_int64 n = (2 ^ 64 - n) % 2 ^ 64

abbrev pub max_int64 : ℕ → ℕ → ℕ
max_int64 a b = if ltb ((a + 2 ^ 63) % 2 ^ 64) ((b + 2 ^ 63) % 2 ^ 64) then b else a

abbrev pub milliseconds : ℕ → ℕ
milliseconds d = if is_nonneg d then d / 1000000 else neg_int64 (neg_int64 d / 1000000)

-- The settings of a connector: the path of the database and the post-connect queries.
pub record Connector : Type 0 where
  pub dsn : Text
  pub post_connect_queries : List Text

-- `newConnector`
unfoldable pub new_connector : Text → Bool → ℕ → ℕ → Connector
unfolding int_text
new_connector db_path read_only cache_size_kb busy_timeout = record {
  dsn = db_path;
  post_connect_queries =
      (codes "PRAGMA BUSY_TIMEOUT = " ++ int_text (milliseconds busy_timeout) ++ codes ";")
      ∷ (codes "PRAGMA CACHE_SIZE = -"
          ++ int_text (max_int64 cache_size_kb (neg_int64 cache_size_kb))
          ++ codes ";")
      ∷ codes "PRAGMA JOURNAL_MODE = WAL;"
      ∷ codes "PRAGMA SYNCHRONOUS = NORMAL;"
      ∷ codes "PRAGMA FOREIGN_KEYS = true;"
      ∷ codes "PRAGMA TEMP_STORE = MEMORY;"
      ∷ codes "PRAGMA MMAP_SIZE = 2147483648;"
      ∷ (if read_only then codes "PRAGMA QUERY_ONLY = true;" ∷ [] else []);
}

-- What the two pragmas get from settings in their ranges.
pub max_int64-neg : (n : ℕ) → n < 2 ^ 63 → max_int64 n (neg_int64 n) ≡ n
max_int64-neg n h = ground arith

-- A read-only connection runs the same queries, and one more at the end.
pub new_connector-read_only :
    (p : Text) (c b : ℕ)
    → (new_connector p true c b).post_connect_queries
      ≡ (new_connector p false c b).post_connect_queries ++ codes "PRAGMA QUERY_ONLY = true;" ∷ []
unfolding new_connector
new_connector-read_only p c b = refl

pub new_connector-dsn : (p : Text) (r : Bool) (c b : ℕ) → (new_connector p r c b).dsn ≡ p
unfolding new_connector
new_connector-dsn p r c b = refl
