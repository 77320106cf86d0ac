-- ===== src/Startup/Open.antt =====
-- internal/db/db.go: `NewDB`, and the settings that `run` of cmd/nsqlite gives it.
use nsqlite.Prelude.{
  ℕ, ◌≡◌, refl, sym, ◌∙◌, Bool, true, false, [], ◌∷◌, ◌++◌, Option, none, some, Text, codes,
  is_empty, if◌then◌else◌, arith,
}
use nsqlite.Entrypoint.Plan.{clean}
use nsqlite.Config.Durations.{is_positive}
use nsqlite.Config.Settings.{Config}
use nsqlite.Config.Parse.{IsValid}
use nsqlite.Db.Types.{Engine}
use nsqlite.Db.State.{Db}
use nsqlite.Db.Invariant.{new_db}
use nsqlite.Startup.Connector.{Connector, new_connector, new_connector-read_only, new_connector-dsn}

-- `db.Config`, without the logger and the statistics
pub record DbConfig : Type 0 where
  pub data_dir : Text
  pub tx_idle_timeout : ℕ
  pub max_read_conns : ℕ
  pub cache_size_kb : ℕ
  pub busy_timeout : ℕ

-- What `run` takes from the settings of the process.
unfoldable pub db_config : Config → DbConfig
db_config conf = record {
  data_dir = conf.data_dir;
  tx_idle_timeout = conf.tx_idle_timeout;
  max_read_conns = conf.max_read_conns;
  cache_size_kb = conf.cache_size_kb;
  busy_timeout = conf.busy_timeout;
}

pub data NewDbError : Type 0 where
  directory_required timeout_required : NewDbError
  create_directory ping_write ping_read : Text → NewDbError

-- A pool of database/sql, with the numbers that it is given.
pub record PoolSettings : Type 0 where
  pub connector : Connector
  pub max_idle_conns : ℕ
  pub max_open_conns : ℕ

pub data NewDb (W : Type 0) : Type 0 where
  started : (read_write read_only : PoolSettings) → Db W → NewDb W
  not_started : NewDbError → W → NewDb W

-- `os.MkdirAll` and `PingContext`; `some` is the error.
pub record Host (W : Type 0) : Type 0 where
  pub mkdir_all : Text → W → Option Text × W
  pub ping : Connector → W → Option Text × W

module _ {W : Type 0} (e : Engine W) (host : Host W) where
  -- `path.Join(config.DataDir, "database.sqlite")`, for a directory that is not empty
  abbrev pub database_path : DbConfig → Text
  database_path config = clean (config.data_dir ++ codes "/database.sqlite")

  abbrev pub connector_of : DbConfig → Bool → Connector
  connector_of config read_only =
      new_connector (database_path config) read_only config.cache_size_kb config.busy_timeout

  -- After each step, by its error.
  unfoldable pub after_read_ping : DbConfig → Option Text × W → NewDb W
  after_read_ping config (some x, w) = not_started (ping_read x) w
  after_read_ping config (none, w) =
      started
        (record { connector = connector_of config false; max_idle_conns = 1; max_open_conns = 1 })
        (record {
          connector = connector_of config true;
          max_idle_conns = config.max_read_conns;
          max_open_conns = config.max_read_conns;
        })
        (new_db e w)

  unfoldable pub after_write_ping : DbConfig → Option Text × W → NewDb W
  unfolding after_read_ping
  after_write_ping config (some x, w) = not_started (ping_write x) w
  after_write_ping config (none, w) =
      after_read_ping config (host.ping (connector_of config true) w)

  unfoldable pub after_mkdir : DbConfig → Option Text × W → NewDb W
  unfolding after_write_ping
  after_mkdir config (some x, w) = not_started (create_directory x) w
  after_mkdir config (none, w) =
      if is_positive config.tx_idle_timeout
      then after_write_ping config (host.ping (connector_of config false) w)
      else not_started timeout_required w

  -- `NewDB`
  unfoldable pub open_db : DbConfig → W → NewDb W
  unfolding after_mkdir
  open_db config w =
      if is_empty config.data_dir
      then not_started directory_required w
      else after_mkdir config (host.mkdir_all config.data_dir w)

  same_path : (config : DbConfig) → (connector_of config true).dsn ≡ (connector_of config false).dsn
  same_path config =
      let p = database_path config in
      new_connector-dsn p true config.cache_size_kb config.busy_timeout
      ∙ sym (new_connector-dsn p false config.cache_size_kb config.busy_timeout)

  -- What can stop the start with settings that `Parse` let pass: the directory and the pings.
  abbrev pub IsOutside : NewDbError → Type 0
  IsOutside directory_required = ⊥
  IsOutside timeout_required = ⊥
  IsOutside _ = Unit

  -- A start, from settings with a name for the directory.
  abbrev pub Starts : DbConfig → NewDb W → Type 0
  Starts config (not_started x w) = IsOutside x
  Starts config (started rw ro db) =
      (rw.connector ≡ connector_of config false)
      × (rw.max_open_conns ≡ 1)
      × (ro.connector.dsn ≡ rw.connector.dsn)
      × (ro.connector.post_connect_queries
          ≡ rw.connector.post_connect_queries ++ codes "PRAGMA QUERY_ONLY = true;" ∷ [])
      × (db ≡ new_db e db.world)

  after_read_ping-Starts :
      (config : DbConfig) (r : Option Text × W) → Starts config (after_read_ping config r)
  unfolding after_read_ping
  after_read_ping-Starts config (some x, w) = tt
  after_read_ping-Starts config (none, w) = (
    refl,
    refl,
    same_path config,
    new_connector-read_only (database_path config) config.cache_size_kb config.busy_timeout,
    refl,
  )

  after_write_ping-Starts :
      (config : DbConfig) (r : Option Text × W) → Starts config (after_write_ping config r)
  unfolding after_write_ping
  after_write_ping-Starts config (some x, w) = tt
  after_write_ping-Starts config (none, w) =
      after_read_ping-Starts config (host.ping (connector_of config true) w)

  after_mkdir-Starts :
      (config : DbConfig) (r : Option Text × W)
      → is_positive config.tx_idle_timeout ≡ true
      → Starts config (after_mkdir config r)
  unfolding after_mkdir
  after_mkdir-Starts config (some x, w) positive = tt
  after_mkdir-Starts config (none, w) positive =
      rw positive (after_write_ping-Starts config (host.ping (connector_of config false) w))

  -- With settings that `Parse` let pass and a directory with a name, `NewDB` fails by the directory
  -- or by a ping only. When it starts, the write pool has at most one connection, both pools open
  -- the same file, the connections of the read pool run what those of the write pool run and then
  -- `PRAGMA QUERY_ONLY`, and the database is the new one.
  pub open_db-Starts :
      (c : Config) (w : W)
      → IsValid c
      → is_empty c.data_dir ≡ false
      → Starts (db_config c) (open_db (db_config c) w)
  unfolding open_db db_config
  open_db-Starts c w valid named = rw named (
      after_mkdir-Starts (db_config c) (host.mkdir_all c.data_dir w)
        (ground (arith, valid.tx_idle_timeout)))
