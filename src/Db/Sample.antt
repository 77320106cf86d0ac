-- ===== src/Db/Sample.antt =====
-- A small environment with one database, to run the model on.
use nsqlite.Prelude.{
  ℕ, ◌+◌, ◌≡◌, refl, Bool, true, false, [], Text, codes, text_eq, has_prefix, is_empty,
  if◌then◌else◌,
}
use nsqlite.Authorizer.Defs.{admin}
use nsqlite.Stats.Defs.{new_db_stats}
use nsqlite.Db.Types.{SqliteResult, Query, Result, ok, err, fault, Engine}
use nsqlite.Db.State.{Db}

pub record World : Type 0 where
  pub time : ℕ
  pub in_tx : Bool

abbrev no_rows : SqliteResult
no_rows = record { last_insert_id = 0; rows_affected = 0; columns = []; types = []; rows = [] }

-- BEGIN outside a transaction, COMMIT and ROLLBACK inside, and anything else at any time.
abbrev run_sql : Text → World → Result SqliteResult × World
run_sql sql w =
    if text_eq sql (codes "BEGIN TRANSACTION")
    then (if w.in_tx
        then (err (fault (codes "within a transaction")), w)
        else (ok no_rows, record w { in_tx = true }))
    else if text_eq sql (codes "COMMIT")
    then (if w.in_tx
        then (ok no_rows, record w { in_tx = false })
        else (err (fault (codes "no transaction")), w))
    else if text_eq sql (codes "ROLLBACK")
    then (if w.in_tx
        then (ok no_rows, record w { in_tx = false })
        else (err (fault (codes "no transaction")), w))
    else (ok no_rows, w)

abbrev pub engine : Engine World
engine = record {
  pool_conn = λ pool w. (ok tt, w);
  is_driver_conn = λ pool w. true;
  close_conn = λ pool w. w;
  close_pool = λ pool w. (ok tt, w);
  set_authorizer_role = λ pool role w. (ok tt, w);
  prepare_read_only = λ pool sql w. (ok (has_prefix sql (codes "SELECT")), w);
  conn_query = λ pool sql params w. run_sql sql w;
  now = λ w. w.time;
  new_uuid = λ w. (codes "tx-1", record w { time = w.time + 1 });
}

pub uuid_nonempty : (w : World) → is_empty (engine.new_uuid w).0 ≡ false
uuid_nonempty w = refl

abbrev pub ask : Text → Text → Text → Query
ask tx_id owner sql = record {
  tx_id = tx_id;
  tx_owner = owner;
  query = sql;
  params = [];
  role = admin;
}

-- A database at rest, and one with a transaction of the owner `ann`.
abbrev pub idle_db : Db World
idle_db = record {
  world = record { time = 5; in_tx = false };
  stats = new_db_stats 5;
  tx_id = [];
  tx_owner = [];
  tx_last_used = 5;
  tx_mu = false;
  tx_op_mu = false;
  write_mu = false;
}

abbrev pub busy_db : Db World
busy_db = record idle_db {
  world = record { time = 90; in_tx = true };
  tx_id = codes "tx-1";
  tx_owner = codes "ann";
  tx_mu = true;
}
