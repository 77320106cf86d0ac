-- ===== src/Db/RoleTests.antt =====
-- A reader on a small environment whose connections have roles and whose table counts its rows.
use nsqlite.Prelude.{
  ℕ, ◌+◌, ◌≡◌, refl, arith, true, false, [], Text, codes, text_eq, has_prefix, if◌then◌else◌,
}
use nsqlite.Authorizer.Defs.{AuthorizerRole, admin, read_only}
use nsqlite.Stats.Defs.{new_db_stats}
use nsqlite.Db.Types.{
  SqliteResult, Query, Result, ok, err, fault, Pool, read_write_pool, read_only_pool, Engine,
}
use nsqlite.Db.State.{Db}
use nsqlite.Db.Query.{query}
use nsqlite.Db.Roles.{Keeps, Kept}
use nsqlite.Db.RoleCalls.{query-Kept}

record Site : Type 0 where
  pub write_role : AuthorizerRole
  pub read_role : AuthorizerRole
  pub rows : ℕ

abbrev no_rows : SqliteResult
no_rows = record { last_insert_id = 0; rows_affected = 0; columns = []; types = []; rows = [] }

abbrev role_of : Pool → Site → AuthorizerRole
role_of read_write_pool s = s.write_role
role_of read_only_pool s = s.read_role

abbrev set_role : Pool → AuthorizerRole → Site → Site
set_role read_write_pool r s = record s { write_role = r }
set_role read_only_pool r s = record s { read_role = r }

abbrev insert_as : AuthorizerRole → Site → Result SqliteResult × Site
insert_as read_only s = (err (fault (codes "not authorized")), s)
insert_as _ s = (ok no_rows, record s { rows = s.rows + 1 })

abbrev run_sql : Pool → Text → Site → Result SqliteResult × Site
run_sql pool sql s =
    if text_eq sql (codes "INSERT") then insert_as (role_of pool s) s else (ok no_rows, s)

abbrev site_engine : Engine Site
site_engine = record {
  pool_conn = λ pool s. (ok tt, s);
  is_driver_conn = λ pool s. true;
  close_conn = λ pool s. s;
  close_pool = λ pool s. (ok tt, s);
  set_authorizer_role = λ pool role s. (ok tt, set_role pool role s);
  prepare_read_only = λ pool sql s. (ok (has_prefix sql (codes "SELECT")), s);
  conn_query = λ pool sql params s. run_sql pool sql s;
  now = λ s. 0;
  new_uuid = λ s. (codes "tx-1", s);
}

abbrev RoleIs : Pool → AuthorizerRole → Site → Type 0
RoleIs pool role s = role_of pool s ≡ role

abbrev Keep : Site → Type 0
Keep s = s.rows ≡ 3

set_role-Keep : (pool : Pool) (r : AuthorizerRole) (s : Site) → Keep s → Keep (set_role pool r s)
set_role-Keep read_write_pool r s h = h
set_role-Keep read_only_pool r s h = h

role_of-set_role :
    (pool : Pool) (r : AuthorizerRole) (s : Site) → role_of pool (set_role pool r s) ≡ r
role_of-set_role read_write_pool r s = refl
role_of-set_role read_only_pool r s = refl

site-Keeps : Keeps site_engine read_only RoleIs Keep
site-Keeps = record {
  conn = λ pool s h. h;
  close_keeps = λ pool s h. h;
  set = λ pool r s h. set_role-Keep pool r s h;
  is_set = λ pool s h. role_of-set_role pool read_only s;
  prepare = λ pool sql s h. h;
  statement = λ pool sql params s r h. ground arith;
  uuid = λ s h. h;
}

abbrev reader_insert : Query
reader_insert = record {
  tx_id = [];
  tx_owner = [];
  query = codes "INSERT";
  params = [];
  role = read_only;
}

abbrev site_db : Db Site
site_db = record {
  world = record { write_role = admin; read_role = admin; rows = 3 };
  stats = new_db_stats 0;
  tx_id = [];
  tx_owner = [];
  tx_last_used = 0;
  tx_mu = false;
  tx_op_mu = false;
  write_mu = false;
}

query-Kept_example : Kept Keep (query site_engine reader_insert site_db)
query-Kept_example = query-Kept site_engine reader_insert RoleIs Keep site-Keeps site_db refl
