-- ===== src/Startup/Connection.antt =====
-- The opening and closing of a connection: internal/sqlite/sqlite.go and internal/sqlitedrv.
use nsqlite.Prelude.{
  ℕ, Bool, true, false, not, ◌||◌, List, [], ◌∷◌, Option, none, some, Text, ◌==◌, if◌then◌else◌,
}

-- What the C functions do, over a type of the states of SQLite. A code is 0 for SQLITE_OK; a handle
-- and a context are there or NULL.
pub record Api (W : Type 0) : Type 0 where
  -- `sqlite3_open`, with its code and the handle that it gives even with an error
  pub sqlite3_open : Text → W → ℕ × Bool × W
  -- `sqlite3_close`, whose code the code ignores
  pub sqlite3_close : Bool → W → W
  pub sqlite3_close_v2 : W → ℕ × W
  pub authorizer_ctx_new : W → Bool × W
  pub authorizer_ctx_free : W → W
  pub set_authorizer : W → ℕ × W
  pub authorizer_ctx_set_role : ℕ → W → ℕ × W
  pub sqlite3_errmsg : W → Text
  -- `Conn.Query` without parameters; `some` is its error
  pub query : Text → W → Option Text × W

-- `Conn`, by whether its pointers are set
pub record Conn : Type 0 where
  pub c_db : Bool
  pub authorizer_ctx : Bool

pub data ConnError : Type 0 where
  -- the code and SQLite's message, if there is a handle to ask
  open_failed close_failed : ℕ → Option Text → ConnError
  no_authorizer_ctx : ConnError
  authorizer_failed : ℕ → Text → ConnError
  no_connection no_context : ConnError
  invalid_role role_failed : ℕ → ConnError
  -- the query and the error of a post-connect query
  post_connect_failed : Text → Text → ConnError
  failed_to_open : ConnError → ConnError
  failed_to_close : ConnError → ConnError

pub data Opened (W : Type 0) : Type 0 where
  opened : Conn → W → Opened W
  refused : ConnError → W → Opened W

module _ {W : Type 0} (api : Api W) where
  -- `getLastError`
  unfoldable pub get_last_error : Bool → W → Option Text
  get_last_error c_db w = if c_db then some (api.sqlite3_errmsg w) else none

  -- The registration of the authorizer, with a context.
  unfoldable pub register : Bool → W → Opened W
  register c_db w =
      let (code, w1) = api.set_authorizer w in
      let w2 = api.authorizer_ctx_free w1 in
      if code == 0
      then opened (record { c_db = c_db; authorizer_ctx = true }) w1
      else refused (authorizer_failed code (api.sqlite3_errmsg w2)) (api.sqlite3_close c_db w2)

  unfoldable pub with_authorizer : Bool → W → Opened W
  unfolding register
  with_authorizer c_db w =
      let (has_ctx, w1) = api.authorizer_ctx_new w in
      if has_ctx then register c_db w1 else refused no_authorizer_ctx (api.sqlite3_close c_db w1)

  -- `Open`
  unfoldable pub open_conn : Text → W → Opened W
  unfolding with_authorizer get_last_error
  open_conn file_path w =
      let (code, c_db, w1) = api.sqlite3_open file_path w in
      if code == 0
      then with_authorizer c_db w1
      else refused (open_failed code (get_last_error c_db w1)) (api.sqlite3_close c_db w1)

  -- `Close`, with the connection as it leaves it; `some` is its error.
  unfoldable pub close_conn : Conn → W → Option ConnError × Conn × W
  unfolding get_last_error
  close_conn conn w =
      let (code, w1) = api.sqlite3_close_v2 w in
      let closed : Conn = record { c_db = false; authorizer_ctx = false } in
      if not conn.c_db
      then (none, conn, w)
      else if not (code == 0)
      then (some (close_failed code (get_last_error conn.c_db w1)), conn, w1)
      else if conn.authorizer_ctx
      then (none, closed, api.authorizer_ctx_free w1)
      else (none, closed, w1)

  -- `AuthorizerRole.isValid`
  unfoldable pub is_valid : ℕ → Bool
  is_valid role = role == 0 || (role == 1 || role == 2)

  -- `SetAuthorizerRole`; `some` is its error.
  unfoldable pub set_authorizer_role : Conn → ℕ → W → Option ConnError × W
  unfolding is_valid
  set_authorizer_role conn role w =
      let (code, w1) = api.authorizer_ctx_set_role role w in
      if not conn.c_db
      then (some no_connection, w)
      else if not conn.authorizer_ctx
      then (some no_context, w)
      else if not (is_valid role)
      then (some (invalid_role role), w)
      else if code == 0
      then (none, w1)
      else (some (role_failed code), w1)

  -- The loop of `newConn`; `some` is the query that failed, with its error.
  unfoldable pub post_connect : List Text → W → Option (Text × Text) × W
  post_connect [] w = (none, w)
  post_connect (query ∷ queries) w =
      let (e, w1) = api.query query w in
      elim e [ some x ↦ (some (query, x), w1) | none ↦ post_connect queries w1 ]

  -- After the post-connect queries.
  abbrev pub finished : Conn → Option (Text × Text) × W → Opened W
  finished conn (some (query, x), w) = refused (post_connect_failed query x) w
  finished conn (none, w) = opened conn w

  unfoldable pub after_open : List Text → Opened W → Opened W
  unfolding post_connect
  after_open queries (refused x w) = refused (failed_to_open x) w
  after_open queries (opened conn w) = finished conn (post_connect queries w)

  -- `newConn`
  unfoldable pub new_conn : Text → List Text → W → Opened W
  unfolding after_open open_conn
  new_conn dsn queries w = after_open queries (open_conn dsn w)

  -- `Close` of internal/sqlitedrv
  unfoldable pub close_driver_conn : Conn → W → Option ConnError × Conn × W
  unfolding close_conn
  close_driver_conn conn w =
      let (e, conn', w1) = close_conn conn w in
      elim e [ some x ↦ (some (failed_to_close x), conn', w1) | none ↦ (none, conn', w1) ]
