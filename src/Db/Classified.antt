-- ===== src/Db/Classified.antt =====
-- What the classification of a query can answer.
use nsqlite.Prelude.{
  ◌≡◌, ◌⊎◌, inl, inr, false, none, some, Text, is_empty, arith, if◌then◌else◌, Bool-cases,
}
use nsqlite.Db.Types.{
  QueryType, read, write, Result, ok, err, Step, Pool, read_write_pool, read_only_pool, Engine,
  get_read_only_connection, get_read_write_connection,
}
use nsqlite.Db.State.{Db, done}
use nsqlite.Db.Classify.{
  classify_text, classify_prepared_query, get_raw_conn, classify_on, classify_query,
  classify_query_on_read_only_conn, classify_query_on_read_write_conn,
}

module _ {W : Type 0} (e : Engine W) where
  -- The classification as a function of the environment alone.
  abbrev pub classified : Text → Text → W → Result QueryType × W
  classified query tx_id w = elim (classify_text query) [
    | some type ↦ (ok type, w)
    | none ↦
        if is_empty tx_id
        then classify_on e read_only_pool get_read_only_connection query w
        else classify_on e read_write_pool get_read_write_connection query w
  ]

  pub classify_query-done :
      (query tx_id : Text) (s : Db W)
      → s.write_mu ≡ false
      → classify_query e query tx_id s
        ≡ done
            (classified query tx_id s.world).0
            (record s { world = (classified query tx_id s.world).1 })
  unfolding classify_query classify_query_on_read_only_conn classify_query_on_read_write_conn
  classify_query-done query tx_id s h = ground arith

  -- SQLite tells a read from a write, and nothing else.
  pub classify_on-type :
      (pool : Pool) (step : Step) (query : Text) (w : W) {type : QueryType}
      → (classify_on e pool step query w).0 ≡ ok type
      → (type ≡ read) ⊎ (type ≡ write)
  unfolding classify_on get_raw_conn classify_prepared_query
  classify_on-type pool step query w h = ground arith

  pub classified-type :
      (query tx_id : Text) (w : W) {type : QueryType}
      → classify_text query ≡ none
      → (classified query tx_id w).0 ≡ ok type
      → (type ≡ read) ⊎ (type ≡ write)
  classified-type query tx_id w {type} n h = elim (Bool-cases (is_empty tx_id)) [
    | inl outside ↦
        classify_on-type read_only_pool get_read_only_connection query w {type = type}
          (ground arith)
    | inr inside ↦
        classify_on-type read_write_pool get_read_write_connection query w {type = type}
          (ground arith)
  ]

  -- Only a query whose text shows no kind can fail to be classified.
  pub classified-err :
      (query tx_id : Text) (w : W) {x : _}
      → (classified query tx_id w).0 ≡ err x
      → classify_text query ≡ none
  classified-err query tx_id w h = ground arith
