-- ===== src/Server/Leaves.antt =====
-- The effect of the queries of internal/server/query.go on the state of the database.
use nsqlite.Prelude.{
  ◌≡◌, refl, true, false, List, [], ◌∷◌, some, Text, is_empty, arith, length, Bool-cases, inl, inr,
}
use nsqlite.Auth.Requests.{RequestProps}
use nsqlite.Db.Types.{Engine}
use nsqlite.Db.Types
use nsqlite.Db.Query
use nsqlite.Db.State.{Db, Outcome, done, waits, fatal, M, ◌>>=◌, pure}
use nsqlite.Db.Effect.{Rests, Effect, Effect-trans, Ensures, MayWait}
use nsqlite.Db.Steps.{IsCounted}
use nsqlite.Db.Invariant.{query-Effect}
use nsqlite.Server.Convert.{val, Converted, converted, rejected, sqlite_params_from_vdl}
use nsqlite.Server.Query.{
  VdlQuery, VdlQueryResult, query_with_params, execute_request_query, execute_queries, db_query,
  query_result_from_db, unless_empty, answer,
}

module _ {W : Type 0} where
  pub Effect-refl : (s : Db W) → Rests false false s → Effect false false s s
  Effect-refl s h = ground arith

  Effect-IsCounted : {s t : Db W} → Effect false false s t → IsCounted s.stats → IsCounted t.stats
  Effect-IsCounted f n = ground (arith, f.queued_begins, f.queued_writes, n)

  -- The effect, with what the answer says.
  abbrev pub Leaves : {A : Type 0} → Type 0 → (A → Type 0) → Db W → Outcome W A → Type 0
  Leaves May P s o = Ensures May (λ a t. Effect false false s t × P a) o

  Leaves-after :
      {A : Type 0} (May : Type 0) (P : A → Type 0) {s t : Db W}
      → Effect false false s t
      → (o : Outcome W A) → Leaves May P t o
      → Leaves May P s o
  Leaves-after May P f (done a u) h = (Effect-trans f h.0, h.1)
  Leaves-after May P f (waits u) h = h
  Leaves-after May P f fatal h = h

  pub Leaves-bind :
      {A B : Type 0} (May : Type 0) (P : A → Type 0) (Q : B → Type 0) (s : Db W)
      → IsCounted s.stats
      → (o : Outcome W A) (f : A → M W B) → Leaves May P s o
      → ((a : A) (t : Db W)
          → Rests false false t
          → IsCounted t.stats
          → P a
          → Leaves May Q t (f a t))
      → Leaves May Q s (elim o [ done a t ↦ f a t | waits t ↦ waits t | fatal ↦ fatal ])
  Leaves-bind May P Q s n (done a t) f h k =
      Leaves-after May Q h.0 (f a t) (k a t h.0.rests (Effect-IsCounted h.0 n) h.1)
  Leaves-bind May P Q s n (waits t) f h k = h
  Leaves-bind May P Q s n fatal f h k = h

  pub Leaves-weaken :
      {A : Type 0} {May May' : Type 0} {P Q : A → Type 0} (s : Db W)
      → (May → May')
      → ((a : A) → P a → Q a)
      → (o : Outcome W A) → Leaves May P s o
      → Leaves May' Q s o
  Leaves-weaken s m k (done a u) h = (h.0, k a h.1)
  Leaves-weaken s m k (waits u) h = m h
  Leaves-weaken s m k fatal h = h

-- A transaction ID in an answer is not empty.
abbrev pub HasTx : VdlQueryResult → Type 0
HasTx r = (x : Text) → r.tx_id ≡ some x → is_empty x ≡ false

unless_empty-some : (s : Text) {x : Text} → unless_empty (λ t. t) s ≡ some x → is_empty x ≡ false
unless_empty-some [] h = absurd (cc)
unless_empty-some (c ∷ s) h = ground arith

answer-HasTx : (r : Types.Result Types.QueryResult) → HasTx (answer r)
unfolding query_result_from_db
answer-HasTx (Types.ok r) x h = unless_empty-some r.tx_id h
answer-HasTx (Types.err y) x h = absurd (cc)

module _ {W : Type 0} (e : Engine W)
    (uuid_nonempty : (w : W) → is_empty (e.new_uuid w).0 ≡ false) where
  query-Leaves :
      (q : Types.Query) (s : Db W)
      → Rests false false s
      → IsCounted s.stats
      → Leaves (MayWait q s) (λ _. Unit) s (Query.query e q s)
  query-Leaves q s h n = ground (arith, query-Effect e uuid_nonempty q s h n)

  query_with_params-Leaves :
      (props : RequestProps) (q : VdlQuery) (c : Converted (List Types.QueryParam)) (s : Db W)
      → Rests false false s
      → IsCounted s.stats
      → Leaves
          ((is_empty (val q.tx_id) ≡ true) × (is_empty s.tx_id ≡ false))
          HasTx
          s
          (query_with_params e props q c s)
  unfolding query_with_params
  query_with_params-Leaves props q (rejected x) s h n = (Effect-refl s h, λ y k. absurd (cc))
  query_with_params-Leaves props q (converted ps) s h n =
      Leaves-bind ((is_empty (val q.tx_id) ≡ true) × (is_empty s.tx_id ≡ false)) (λ _. Unit) HasTx s
        n (Query.query e (db_query e props q ps) s) (λ r. pure (answer r))
        (query-Leaves (db_query e props q ps) s h n)
        (λ r t g m _. (Effect-refl t g, answer-HasTx r))

  pub execute_request_query-Leaves :
      (props : RequestProps) (q : VdlQuery) (s : Db W)
      → Rests false false s
      → IsCounted s.stats
      → Leaves
          ((is_empty (val q.tx_id) ≡ true) × (is_empty s.tx_id ≡ false))
          HasTx
          s
          (execute_request_query e props q s)
  unfolding execute_request_query
  execute_request_query-Leaves props q s h n = elim (Bool-cases (is_empty q.query)) [
    | inl empty ↦ ground (arith, Effect-refl s h)
    | inr full ↦
        ground (arith, query_with_params-Leaves props q (sqlite_params_from_vdl q.params) s h n)
  ]

  pub execute_queries-Leaves :
      (props : RequestProps) (qs : List VdlQuery) (s : Db W)
      → Rests false false s
      → IsCounted s.stats
      → Leaves Unit (λ rs. length rs ≡ length qs) s (execute_queries e props qs s)
  unfolding execute_queries
  execute_queries-Leaves props [] s h n = (Effect-refl s h, refl)
  execute_queries-Leaves props (q ∷ qs) s h n =
      Leaves-bind Unit HasTx (λ rs. length rs ≡ length (q ∷ qs)) s n
        (execute_request_query e props q s) (λ r. do rs ← execute_queries e props qs; pure (r ∷ rs))
        (Leaves-weaken s (λ _. tt) (λ r p. p) (execute_request_query e props q s)
          (execute_request_query-Leaves props q s h n))
        (λ r t g m _.
          Leaves-bind Unit (λ rs. length rs ≡ length qs) (λ rs. length rs ≡ length (q ∷ qs)) t m
            (execute_queries e props qs t) (λ rs. pure (r ∷ rs))
            (execute_queries-Leaves props qs t g m)
            (λ rs u k l eq. (Effect-refl u k, omega (arith, eq))))
