-- ===== src/Db/Roles.antt =====
-- Under which role the statements of a call run: the parts of internal/db/db.go that use a
-- connection.
use nsqlite.Prelude.{◌≡◌, List, [], Text, arith}
use nsqlite.Authorizer.Defs.{AuthorizerRole, admin}
use nsqlite.Db.Types.{
  QueryParam, QueryResult, SqliteResult, Step, Result, ok, Pool, read_write_pool, read_only_pool,
  Engine, get_read_only_connection, get_read_write_connection,
}
use nsqlite.Db.State.{Db, Outcome, done, waits, fatal}
use nsqlite.Db.Classify.{
  get_raw_conn, classify_prepared_query, classify_on, classify_query,
  classify_query_on_read_only_conn, classify_query_on_read_write_conn, use_read_write_conn,
  with_read_write_conn,
}
use nsqlite.Db.Exec.{run_on, run_plain}

-- What a property `Keep` of the environment must bear for the calls of one role: all that the
-- database code does with a connection keeps it, a statement when the connection has the role that
-- was set last. `RoleIs` tells the role of a pool's connection.
pub record Keeps {W : Type 0} (e : Engine W) (role : AuthorizerRole)
    (RoleIs : Pool → AuthorizerRole → W → Type 0) (Keep : W → Type 0) : Type 0 where
  pub conn : (pool : Pool) (w : W) → Keep w → Keep (e.pool_conn pool w).1
  pub close_keeps : (pool : Pool) (w : W) → Keep w → Keep (e.close_conn pool w)
  pub set :
      (pool : Pool) (r : AuthorizerRole) (w : W) → Keep w → Keep (e.set_authorizer_role pool r w).1
  pub is_set :
      (pool : Pool) (w : W)
      → (e.set_authorizer_role pool role w).0 ≡ ok tt
      → RoleIs pool role (e.set_authorizer_role pool role w).1
  pub prepare :
      (pool : Pool) (sql : Text) (w : W) → Keep w → Keep (e.prepare_read_only pool sql w).1
  pub statement :
      (pool : Pool) (sql : Text) (params : List QueryParam) (w : W)
      → RoleIs pool role w
      → Keep w
      → Keep (e.conn_query pool sql params w).1
  pub uuid : (w : W) → Keep w → Keep (e.new_uuid w).1

-- The property of the environment when a call has ended or waits.
abbrev pub Kept : {W A : Type 0} → (W → Type 0) → Outcome W A → Type 0
Kept Keep (done a t) = Keep t.world
Kept Keep (waits t) = Keep t.world
Kept Keep fatal = Unit

module _ {W : Type 0} (e : Engine W) (role : AuthorizerRole)
    (RoleIs : Pool → AuthorizerRole → W → Type 0) (Keep : W → Type 0)
    (k : Keeps e role RoleIs Keep) where
  pub get_raw_conn-Keeps : (pool : Pool) (w : W) → Keep w → Keep (get_raw_conn e pool w).1
  unfolding get_raw_conn
  get_raw_conn-Keeps pool w h =
      ground (arith, k.conn pool w h, k.close_keeps pool (e.pool_conn pool w).1)

  classify_prepared_query-Keeps :
      (pool : Pool) (sql : Text) (w : W) → Keep w → Keep (classify_prepared_query e pool sql w).1
  unfolding classify_prepared_query
  classify_prepared_query-Keeps pool sql w h =
      ground
        (arith, k.set pool admin w h, k.prepare pool sql (e.set_authorizer_role pool admin w).1)

  classify_on-Keeps :
      (pool : Pool) (step : Step) (sql : Text) (w : W)
      → Keep w
      → Keep (classify_on e pool step sql w).1
  unfolding classify_on
  classify_on-Keeps pool step sql w h =
      let w' = (get_raw_conn e pool w).1 in
      ground (
        arith,
        get_raw_conn-Keeps pool w h,
        classify_prepared_query-Keeps pool sql w',
        k.close_keeps pool (classify_prepared_query e pool sql w').1,
      )

  -- A callback keeps `Keep` when the connection has the role.
  abbrev pub Runs : Pool → (W → Result QueryResult × W) → Type 0
  Runs pool fn = (w : W) → RoleIs pool role w → Keep w → Keep (fn w).1

  pub run_on-Runs :
      (pool : Pool) (sql : Text) (params : List QueryParam) (step : Step)
      (result : SqliteResult → QueryResult)
      → Runs pool (run_on e pool sql params step result)
  run_on-Runs pool sql params step result w r h = ground (arith, k.statement pool sql params w r h)

  pub run_plain-Runs : (sql : Text) → Runs read_write_pool (run_plain e sql)
  run_plain-Runs sql w r h = ground (arith, k.statement read_write_pool sql [] w r h)

  use_read_write_conn-Keeps :
      (fn : W → Result QueryResult × W) (w : W)
      → Runs read_write_pool fn
      → Keep w
      → Keep (use_read_write_conn e role fn w).1
  unfolding use_read_write_conn
  use_read_write_conn-Keeps fn w f h =
      let w' = (get_raw_conn e read_write_pool w).1 in
      let w'' = (e.set_authorizer_role read_write_pool role w').1 in
      ground (
        arith,
        get_raw_conn-Keeps read_write_pool w h,
        k.set read_write_pool role w',
        k.is_set read_write_pool w',
        f w'',
        k.close_keeps read_write_pool w'',
        k.close_keeps read_write_pool (fn w'').1,
      )

  pub with_read_write_conn-Kept :
      (fn : W → Result QueryResult × W) (s : Db W)
      → Runs read_write_pool fn
      → Keep s.world
      → Kept Keep (with_read_write_conn e role fn s)
  unfolding with_read_write_conn
  with_read_write_conn-Kept fn s f h = ground (arith, use_read_write_conn-Keeps fn s.world f h)

  pub classify_query-Kept :
      (sql tx_id : Text) (s : Db W) → Keep s.world → Kept Keep (classify_query e sql tx_id s)
  unfolding classify_query classify_query_on_read_only_conn classify_query_on_read_write_conn
  classify_query-Kept sql tx_id s h = ground (
    arith,
    classify_on-Keeps read_only_pool get_read_only_connection sql s.world h,
    classify_on-Keeps read_write_pool get_read_write_connection sql s.world h,
  )
