-- ===== src/Db/Types.antt =====
-- Queries, results and errors of internal/db/db.go, the values of internal/sqlite/sqlite.go, and
-- what the database code calls: the connection pools of database/sql, SQLite, the clock and the
-- generator of UUIDs.
use nsqlite.Prelude.{ℕ, Bool, List, Text}
use nsqlite.Authorizer.Defs.{AuthorizerRole}

-- The Go values that are bound and read: an integer is its 64-bit pattern, a float64 its bits.
pub data Value : Type 0 where
  null : Value
  integer : ℕ → Value
  real : ℕ → Value
  text : Text → Value
  blob : List ℕ → Value

-- `sqlite.QueryParam`; a nameless parameter has the empty name.
pub record QueryParam : Type 0 where
  pub name : Text
  pub value : Value

-- `sqlite.QueryResult`
pub record SqliteResult : Type 0 where
  pub last_insert_id : ℕ
  pub rows_affected : ℕ
  pub columns : List Text
  pub types : List Text
  pub rows : List (List Value)

pub data QueryType : Type 0 where
  unknown read write begin commit rollback : QueryType

-- `db.Query`
pub record Query : Type 0 where
  pub tx_id : Text
  pub tx_owner : Text
  pub query : Text
  pub params : List QueryParam
  pub role : AuthorizerRole

-- `db.QueryResult`
pub record QueryResult : Type 0 where
  pub type : QueryType
  pub tx_id : Text
  pub last_insert_id : ℕ
  pub rows_affected : ℕ
  pub columns : List Text
  pub types : List Text
  pub rows : List (List Value)

-- What an error says was being done: the prefixes that `fmt.Errorf` puts before `: %w`.
pub data Step : Type 0 where
  get_pool_connection get_raw_connection cast_connection : Step
  get_read_only_connection get_read_write_connection get_read_write_connection_from_pool : Step
  set_classification_role set_write_role set_read_role prepare_statement : Step
  detect_query_type begin_transaction commit_transaction rollback_transaction : Step
  executing_write_query executing_read_query close_write close_read : Step

pub data Error : Type 0 where
  tx_not_found tx_not_match tx_within_tx tx_id_required : Error
  unknown_query_type : QueryType → Error
  -- an error of SQLite, of a pool or of the context, by its text
  fault : Text → Error
  failed_to : Step → Error → Error

pub data Result {ℓ} (A : Type ℓ) : Type ℓ where
  ok : A → Result A
  err : Error → Result A

pub data Pool : Type 0 where
  read_write_pool read_only_pool : Pool

-- The environment, over a type of its states.
pub record Engine (W : Type 0) : Type 0 where
  -- `sql.DB.Conn`
  pub pool_conn : Pool → W → Result (Unit {0}) × W
  -- whether `Raw` gives a connection of internal/sqlitedrv
  pub is_driver_conn : Pool → W → Bool
  -- `sql.Conn.Close` gives the connection back
  pub close_conn : Pool → W → W
  -- `sql.DB.Close`
  pub close_pool : Pool → W → Result (Unit {0}) × W
  -- `Conn.SetAuthorizerRole`
  pub set_authorizer_role : Pool → AuthorizerRole → W → Result (Unit {0}) × W
  -- `Conn.Prepare`, then `Stmt.ReadOnly` and `Stmt.Finalize`
  pub prepare_read_only : Pool → Text → W → Result Bool × W
  -- `Conn.Query`
  pub conn_query : Pool → Text → List QueryParam → W → Result SqliteResult × W
  -- `time.Now`, in nanoseconds
  pub now : W → ℕ
  -- `uuid.NewString`
  pub new_uuid : W → Text × W
