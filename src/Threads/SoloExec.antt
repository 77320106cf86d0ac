-- ===== src/Threads/SoloExec.antt =====
-- The programs of the classification and of the kinds of query, running alone.
use nsqlite.Prelude.{
  ◌≡◌, refl, inl, inr, [], ◌∷◌, Option, none, some, Text, is_empty, Bool-cases, if◌then◌else◌,
}
use nsqlite.Authorizer.Defs.{AuthorizerRole}
use nsqlite.Stats.Defs.{inc_writes, inc_reads}
use nsqlite.Db.Types.{
  Query, QueryResult, QueryType, unknown, read, write, begin, commit, rollback, Result, ok, err,
  Engine,
}
use nsqlite.Db.State.{Db, done, M}
use nsqlite.Db.Classify.{
  classify_text, classify_query, classify_query_on_read_only_conn,
  classify_query_on_read_write_conn, with_read_write_conn,
}
use nsqlite.Db.Exec.{
  finish_begin, execute_begin_query, finish_commit, execute_commit_query, finish_rollback,
  execute_rollback_query, finish_write, finish_read, execute_write_query, execute_read_query,
  execute_classified_query,
}
use nsqlite.Db.Query.{query}
use nsqlite.Threads.Program.{◌>>=◌, solo, tx_mu}
use nsqlite.Threads.Exec.{
  prepared_program, typed_program, classify_program, conn_program, finish_begin_program,
  begin_program, finish_commit_program, commit_program, finish_rollback_program, rollback_program,
  finish_program, write_program, read_program, execute_program,
}
use nsqlite.Threads.Solo.{bind-alone, lock-alone, store-alone, call-alone, pure-alone}

module _ {W : Type 0} (e : Engine W) where
  solo-prepared :
      (query tx_id : Text) (s : Db W)
      → solo (prepared_program e query tx_id) s
        ≡ (if is_empty tx_id
              then classify_query_on_read_only_conn e query
              else classify_query_on_read_write_conn e query)
            s
  unfolding prepared_program classify_query_on_read_only_conn classify_query_on_read_write_conn solo
      ◌>>=◌
  solo-prepared query [] s = refl
  solo-prepared query (c ∷ cs) s = refl

  solo-typed :
      (o : Option QueryType) (query tx_id : Text) (s : Db W)
      → solo (typed_program e o query tx_id) s
        ≡ (elim o as (λ _. M W (Result QueryType)) [
          | some type ↦ λ t. done (ok type) t
          | none ↦
              if is_empty tx_id
              then classify_query_on_read_only_conn e query
              else classify_query_on_read_write_conn e query
        ])
            s
  unfolding typed_program
  solo-typed (some type) query tx_id s = pure-alone _ s
  solo-typed none query tx_id s = solo-prepared query tx_id s

  pub solo-classify :
      (query tx_id : Text) (s : Db W)
      → solo (classify_program e query tx_id) s ≡ classify_query e query tx_id s
  unfolding classify_program classify_query
  solo-classify query tx_id s = solo-typed (classify_text query) query tx_id s

  solo-conn :
      (tx_id : Text) (role : AuthorizerRole) (fn : W → Result QueryResult × W) (s : Db W)
      → solo (conn_program e tx_id role fn) s ≡ with_read_write_conn e role fn s
  unfolding conn_program with_read_write_conn solo ◌>>=◌
  solo-conn tx_id role fn s = refl

  solo-finish_begin :
      (owner : Text) (r : Result QueryResult) (s : Db W)
      → solo (finish_begin_program e owner r) s ≡ finish_begin e owner r s
  unfolding finish_begin_program finish_begin solo ◌>>=◌
  solo-finish_begin owner (err x) s = refl
  solo-finish_begin owner (ok q) s = refl

  solo-finish_commit :
      (r : Result QueryResult) (s : Db W) → solo (finish_commit_program e r) s ≡ finish_commit e r s
  unfolding finish_commit_program finish_commit solo ◌>>=◌
  solo-finish_commit (err x) s = refl
  solo-finish_commit (ok q) s = refl

  solo-finish_rollback :
      (r : Result QueryResult) (s : Db W)
      → solo (finish_rollback_program e r) s ≡ finish_rollback e r s
  unfolding finish_rollback_program finish_rollback solo ◌>>=◌
  solo-finish_rollback (err x) s = refl
  solo-finish_rollback (ok q) s = refl

  solo-begin :
      (tx_id : Text) (role : AuthorizerRole) (owner : Text) (s : Db W)
      → solo (begin_program e tx_id role owner) s ≡ execute_begin_query e tx_id role owner s
  unfolding begin_program execute_begin_query
  solo-begin (c ∷ cs) role owner s = pure-alone _ s
  solo-begin [] role owner s = store-alone _ _ s _ (
      lock-alone tx_mu _ _ _ (λ t. bind-alone _ _ _ _ t (solo-conn [] role _) (λ r t1.
        bind-alone _ _ _ _ t1 (solo-finish_begin owner r)
          (λ q t2. store-alone _ _ t2 _ (pure-alone q _)))))

  solo-commit :
      (tx_id : Text) (role : AuthorizerRole) (s : Db W)
      → solo (commit_program e tx_id role) s ≡ execute_commit_query e tx_id role s
  unfolding commit_program execute_commit_query
  solo-commit [] role s = pure-alone _ s
  solo-commit (c ∷ cs) role s = bind-alone _ _ _ _ s (solo-conn (c ∷ cs) role _) solo-finish_commit

  pub solo-rollback :
      (tx_id : Text) (role : AuthorizerRole) (s : Db W)
      → solo (rollback_program e tx_id role) s ≡ execute_rollback_query e tx_id role s
  unfolding rollback_program execute_rollback_query
  solo-rollback [] role s = pure-alone _ s
  solo-rollback (c ∷ cs) role s =
      bind-alone _ _ _ _ s (solo-conn (c ∷ cs) role _) solo-finish_rollback

  solo-finish_write :
      (r : Result QueryResult) (s : Db W)
      → solo (finish_program e inc_writes r) s ≡ finish_write e r s
  unfolding finish_program finish_write solo ◌>>=◌
  solo-finish_write (err x) s = refl
  solo-finish_write (ok q) s = refl

  solo-finish_read :
      (r : Result QueryResult) (s : Db W)
      → solo (finish_program e inc_reads r) s ≡ finish_read e r s
  unfolding finish_program finish_read solo ◌>>=◌
  solo-finish_read (err x) s = refl
  solo-finish_read (ok q) s = refl

  solo-write : (q : Query) (s : Db W) → solo (write_program e q) s ≡ execute_write_query e q s
  unfolding write_program execute_write_query
  solo-write q s = store-alone _ _ s _ (
      bind-alone _ _ _ _ _ (solo-conn q.tx_id q.role _) (λ r t.
        bind-alone _ _ _ _ t (solo-finish_write r) (λ a t1. store-alone _ _ t1 _ (pure-alone a _))))

  solo-read : (q : Query) (s : Db W) → solo (read_program e q) s ≡ execute_read_query e q s
  unfolding read_program execute_read_query
  solo-read q s = elim (Bool-cases (is_empty q.tx_id)) [
    | inl outside ↦ rw outside (call-alone _ _ _ s _ (solo-finish_read _ _))
    | inr inside ↦ rw inside (bind-alone _ _ _ _ s (solo-conn q.tx_id q.role _) solo-finish_read)
  ]

  pub solo-execute :
      (q : Query) (type : QueryType) (s : Db W)
      → solo (execute_program e q type) s ≡ execute_classified_query e q type s
  unfolding execute_program execute_classified_query
  solo-execute q begin s = solo-begin q.tx_id q.role q.tx_owner s
  solo-execute q commit s = solo-commit q.tx_id q.role s
  solo-execute q rollback s = solo-rollback q.tx_id q.role s
  solo-execute q read s = solo-read q s
  solo-execute q write s = solo-write q s
  solo-execute q unknown s = pure-alone _ s
