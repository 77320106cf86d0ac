-- ===== src/Startup/Tests.antt =====
-- The theorems on the start at a small host and a small SQLite.
use nsqlite.Prelude.{
  ℕ, ◌+◌, ◌-◌, refl, true, false, [], ◌∷◌, none, some, codes, text_eq, if◌then◌else◌,
}
use nsqlite.Db.Sample.{World, engine}
use nsqlite.Config.Sample.{default_config, default-IsValid}
use nsqlite.Startup.Connection.{Api, new_conn}
use nsqlite.Startup.Resources.{Ledger, one_if, Holds, new_conn-Holds}
use nsqlite.Startup.Open.{Host, db_config, open_db, Starts, open_db-Starts}

abbrev host : Host World
host = record { mkdir_all = λ dir w. (none, w); ping = λ connector w. (none, w) }

open_db-Starts_example :
    Starts engine host
      (db_config default_config)
      (open_db engine host (db_config default_config) (record { time = 5; in_tx = false }))
open_db-Starts_example =
    open_db-Starts engine host default_config (record { time = 5; in_tx = false }) default-IsValid
      refl

-- A SQLite that counts, and that knows one PRAGMA.
record Counted : Type 0 where
  handles : ℕ
  contexts : ℕ

abbrev api : Api Counted
api = record {
  sqlite3_open = λ p w. (0, true, record w { handles = w.handles + 1 });
  sqlite3_close = λ b w. record w { handles = w.handles - one_if b };
  sqlite3_close_v2 = λ w. (0, record w { handles = w.handles - 1 });
  authorizer_ctx_new = λ w. (true, record w { contexts = w.contexts + 1 });
  authorizer_ctx_free = λ w. record w { contexts = w.contexts - 1 };
  set_authorizer = λ w. (0, w);
  authorizer_ctx_set_role = λ role w. (0, w);
  sqlite3_errmsg = λ w. [];
  query = λ q w. (
    if text_eq q (codes "PRAGMA FOREIGN_KEYS = true;") then none else some (codes "no such PRAGMA"),
    w,
  );
}

abbrev ledger : Ledger api
ledger = record {
  handles = λ w. w.handles;
  contexts = λ w. w.contexts;
  open_handles = λ p w. refl;
  open_contexts = λ p w. refl;
  open_handle = λ p w e. refl;
  close_handles = λ b w. refl;
  close_contexts = λ b w. refl;
  close_v2_handles = λ w. refl;
  close_v2_contexts = λ w. refl;
  new_handles = λ w. refl;
  new_contexts = λ w. refl;
  free_handles = λ w. refl;
  free_contexts = λ w. refl;
  set_handles = λ w. refl;
  set_contexts = λ w. refl;
  query_handles = λ q w. refl;
  query_contexts = λ q w. refl;
}

-- The second query fails.
new_conn-Holds_example : Holds api ledger 3 2 (
    new_conn api
      (codes "/data/database.sqlite")
      (codes "PRAGMA FOREIGN_KEYS = true;" ∷ codes "PRAGMA X;" ∷ [])
      (record { handles = 3; contexts = 2 }))
new_conn-Holds_example =
    new_conn-Holds api ledger (codes "/data/database.sqlite")
      (codes "PRAGMA FOREIGN_KEYS = true;" ∷ codes "PRAGMA X;" ∷ [])
      (record { handles = 3; contexts = 2 })
