-- ===== src/Server/Transaction.antt =====
-- What a rqlite request does to the transaction state of the database.
use nsqlite.Prelude.{
  ℕ, ◌+◌, ◌≤◌, ◌<◌, ◌≡◌, refl, sym, subst, Bool, true, false, List, [], ◌∷◌, Text, codes, is_empty,
  arith, length, if◌then◌else◌, Option-cases, inl, inr, dec-inc, int64_mod,
}
use nsqlite.Stats.Balance.{inc_counter-Moves}
use nsqlite.Stats.Report.{http_requests}
use nsqlite.Stats.Defs.{inc_http_requests, inc_queued_http_requests, dec_queued_http_requests}
use nsqlite.Auth.Requests.{RequestProps, Access, granted, refused}
use nsqlite.Db.Types.{Engine}
use nsqlite.Db.State.{Db, Outcome, done, waits, fatal, M, ◌>>=◌, pure}
use nsqlite.Db.Effect.{Rests, Effect, Ensures}
use nsqlite.Db.Steps.{IsCounted}
use nsqlite.Server.Request.{Parsed, parsed, malformed}
use nsqlite.Server.Query.{plain, VdlQuery, VdlQueryResult, execute_request_query, execute_queries}
use nsqlite.Server.Rqlite.{
  EndpointMode, within, has_failed, commit_tx, roll_back_tx, run_tx, after_begin,
  execute_rqlite_queries, handle_rqlite, props_of_mode, answered,
}
use nsqlite.Server.Leaves.{
  Leaves, Leaves-weaken, Leaves-bind, Effect-refl, HasTx, execute_request_query-Leaves,
  execute_queries-Leaves,
}

-- The answers stop at the first one that has failed.
pub data StopsAtFailure : List VdlQueryResult → Type 0 where
  nothing : StopsAtFailure []
  only : (r : VdlQueryResult) → StopsAtFailure (r ∷ [])
  more :
      (r : VdlQueryResult) {rs : List VdlQueryResult}
      → has_failed r ≡ false
      → StopsAtFailure rs
      → StopsAtFailure (r ∷ rs)

abbrev pub IsRunOf : List VdlQuery → List VdlQueryResult → Type 0
IsRunOf qs rs = StopsAtFailure rs × (length rs ≤ length qs + 1)

of_commit : (r : VdlQueryResult) (b : Bool) → IsRunOf [] (if b then r ∷ [] else [])
of_commit r true = (only r, omega arith)
of_commit r false = (nothing, omega arith)

module _ {W : Type 0} (e : Engine W)
    (uuid_nonempty : (w : W) → is_empty (e.new_uuid w).0 ≡ false) where
  -- A statement with a transaction ID does not wait.
  within-Leaves :
      (props : RequestProps) (tx_id : Text) (q : VdlQuery) (s : Db W)
      → is_empty tx_id ≡ false
      → Rests false false s
      → IsCounted s.stats
      → Leaves ⊥ HasTx s (execute_request_query e props (within tx_id q) s)
  within-Leaves props tx_id q s o h n =
      Leaves-weaken s (λ m. absurd (cc)) (λ r p. p)
        (execute_request_query e props (within tx_id q) s)
        (execute_request_query-Leaves e uuid_nonempty props (within tx_id q) s h n)

  commit_tx-Leaves :
      (props : RequestProps) (tx_id : Text) (s : Db W)
      → is_empty tx_id ≡ false
      → Rests false false s
      → IsCounted s.stats
      → Leaves ⊥ (IsRunOf []) s (commit_tx e props tx_id s)
  unfolding commit_tx
  commit_tx-Leaves props tx_id s o h n =
      Leaves-bind ⊥ HasTx (IsRunOf []) s n
        (execute_request_query e props (within tx_id (plain (codes "COMMIT"))) s)
        (λ r. pure (if has_failed r then r ∷ [] else []))
        (within-Leaves props tx_id (plain (codes "COMMIT")) s o h n)
        (λ r t g m _. (Effect-refl t g, of_commit r (has_failed r)))

  roll_back_tx-Leaves :
      (props : RequestProps) (tx_id : Text) (s : Db W)
      → is_empty tx_id ≡ false
      → Rests false false s
      → IsCounted s.stats
      → Leaves ⊥ (λ rs. rs ≡ []) s (roll_back_tx e props tx_id s)
  unfolding roll_back_tx
  roll_back_tx-Leaves props tx_id s o h n =
      Leaves-bind ⊥ HasTx (λ rs. rs ≡ []) s n
        (execute_request_query e props (within tx_id (plain (codes "ROLLBACK"))) s) (λ _. pure [])
        (within-Leaves props tx_id (plain (codes "ROLLBACK")) s o h n)
        (λ r t g m _. (Effect-refl t g, refl))

  -- After a statement of a transaction: the rollback, or the rest of the statements.
  abbrev after_statement : RequestProps → Text → List VdlQuery → Bool → M W (List VdlQueryResult)
  after_statement props tx_id qs b = elim b [
    | true ↦ roll_back_tx e props tx_id
    | false ↦ run_tx e props tx_id qs
  ]

  after_statement-Leaves :
      (props : RequestProps) (tx_id : Text) (q : VdlQuery) (qs : List VdlQuery) (s : Db W)
      (r : VdlQueryResult) (b : Bool)
      → has_failed r ≡ b
      → Leaves ⊥ (λ rs. rs ≡ []) s (roll_back_tx e props tx_id s)
      → Leaves ⊥ (IsRunOf qs) s (run_tx e props tx_id qs s)
      → Leaves ⊥ (λ rs. IsRunOf (q ∷ qs) (r ∷ rs)) s (after_statement props tx_id qs b s)
  after_statement-Leaves props tx_id q qs s r true eq f g =
      Leaves-weaken s (λ x. x)
        (λ rs k. subst (λ l. IsRunOf (q ∷ qs) (r ∷ l)) (sym k) (only r, omega arith))
        (roll_back_tx e props tx_id s) f
  after_statement-Leaves props tx_id q qs s r false eq f g =
      Leaves-weaken s (λ x. x) (λ rs k. (more r eq k.0, omega (arith, k.1)))
        (run_tx e props tx_id qs s) g

  run_tx-Leaves :
      (props : RequestProps) (tx_id : Text) (qs : List VdlQuery) (s : Db W)
      → is_empty tx_id ≡ false
      → Rests false false s
      → IsCounted s.stats
      → Leaves ⊥ (IsRunOf qs) s (run_tx e props tx_id qs s)
  unfolding run_tx
  run_tx-Leaves props tx_id [] s o h n = commit_tx-Leaves props tx_id s o h n
  run_tx-Leaves props tx_id (q ∷ qs) s o h n =
      Leaves-bind ⊥ HasTx (IsRunOf (q ∷ qs)) s n (execute_request_query e props (within tx_id q) s)
        (λ r. do
          rs ← (elim (has_failed r) [
            | true ↦ roll_back_tx e props tx_id
            | false ↦ run_tx e props tx_id qs
          ])
          pure (r ∷ rs))
        (within-Leaves props tx_id q s o h n)
        (λ r t g m _.
          Leaves-bind ⊥ (λ rs. IsRunOf (q ∷ qs) (r ∷ rs)) (IsRunOf (q ∷ qs)) t m
            (after_statement props tx_id qs (has_failed r) t) (λ rs. pure (r ∷ rs))
            (after_statement-Leaves props tx_id q qs t r (has_failed r) refl
              (roll_back_tx-Leaves props tx_id t o g m) (run_tx-Leaves props tx_id qs t o g m))
            (λ rs u k l run. (Effect-refl u k, run)))

  after_begin-Leaves :
      (props : RequestProps) (qs : List VdlQuery) (r : VdlQueryResult) (s : Db W)
      → HasTx r
      → Rests false false s
      → IsCounted s.stats
      → Leaves ⊥ (IsRunOf qs) s (after_begin e props qs r s)
  unfolding after_begin
  after_begin-Leaves props qs r s tx h n = elim (Option-cases r.error) [
    | inl ok ↦ elim (Option-cases r.tx_id) [
      | inl no_tx ↦ ground (arith, Effect-refl s h, only r)
      | inr (x, is_x) ↦ ground (arith, run_tx-Leaves props x qs s (tx x is_x) h n)
    ]
    | inr (x, is_x) ↦ ground (arith, Effect-refl s h, only r)
  ]

  -- A rqlite request with `transaction` and at least one statement, from a state of rest with the
  -- queue lengths in range, leaves a state of rest and keeps the queue lengths and the account of
  -- transactions, whatever its statements do. Its answers stop at the first failed one and are at
  -- most one more than the statements. It waits only if a transaction is open when it begins, so
  -- never for itself; all this if the generated transaction IDs are not empty.
  pub execute_rqlite_queries-Effect :
      (props : RequestProps) (q : VdlQuery) (qs : List VdlQuery) (s : Db W)
      → Rests false false s
      → IsCounted s.stats
      → Ensures
          (is_empty s.tx_id ≡ false)
          (λ rs t. Effect false false s t × IsRunOf (q ∷ qs) rs)
          (execute_rqlite_queries e props (q ∷ qs) true s)
  unfolding execute_rqlite_queries
  execute_rqlite_queries-Effect props q qs s h n =
      Leaves-bind (is_empty s.tx_id ≡ false) HasTx (IsRunOf (q ∷ qs)) s n
        (execute_request_query e props (plain (codes "BEGIN")) s)
        (λ begin. after_begin e props (q ∷ qs) begin)
        (Leaves-weaken s (λ m. m.1) (λ r p. p)
          (execute_request_query e props (plain (codes "BEGIN")) s)
          (execute_request_query-Leaves e uuid_nonempty props (plain (codes "BEGIN")) s h n))
        (λ r t g m tx.
          Leaves-weaken t (λ x. absurd x) (λ rs p. p) (after_begin e props (q ∷ qs) r t)
            (after_begin-Leaves props (q ∷ qs) r t tx g m))

  rqlite_queries-Leaves :
      (props : RequestProps) (qs : List VdlQuery) (b : Bool) (s : Db W)
      → Rests false false s
      → IsCounted s.stats
      → Leaves Unit (λ _. Unit) s (execute_rqlite_queries e props qs b s)
  unfolding execute_rqlite_queries
  rqlite_queries-Leaves props qs false s h n =
      Leaves-weaken s (λ x. x) (λ rs p. tt) (execute_queries e props qs s)
        (execute_queries-Leaves e uuid_nonempty props qs s h n)
  rqlite_queries-Leaves props [] true s h n =
      Leaves-weaken s (λ x. x) (λ rs p. tt) (execute_queries e props [] s)
        (execute_queries-Leaves e uuid_nonempty props [] s h n)
  rqlite_queries-Leaves props (q ∷ qs) true s h n =
      Leaves-weaken s (λ _. tt) (λ rs p. tt) (execute_rqlite_queries e props (q ∷ qs) true s)
        (execute_rqlite_queries-Effect props q qs s h n)

  answered-Effect :
      (s u : Db W) (now : ℕ)
      → s.stats.queued_http_requests < int64_mod
      → Effect false false
          (record s { stats = inc_queued_http_requests (inc_http_requests now s.stats) })
          u
      → Effect false false s (record u { stats = dec_queued_http_requests u.stats })
  unfolding inc_queued_http_requests dec_queued_http_requests
  answered-Effect s u now h f =
      ground (
        arith,
        f,
        inc_counter-Moves http_requests now s.stats,
        dec-inc s.stats.queued_http_requests,
      )

  abbrev pub arrived : ℕ → Db W → Db W
  arrived now s = record s { stats = inc_queued_http_requests (inc_http_requests now s.stats) }

  pub arrived-IsCounted : (now : ℕ) (s : Db W) → IsCounted s.stats → IsCounted (arrived now s).stats
  unfolding inc_queued_http_requests
  arrived-IsCounted now s n = ground (arith, inc_counter-Moves http_requests now s.stats)

  pub answer_outcome-Effect :
      {A B : Type 0} (f : A → B) (s : Db W) (now : ℕ) (o : Outcome W A)
      → s.stats.queued_http_requests < int64_mod
      → Leaves Unit (λ _. Unit) (arrived now s) o
      → Ensures Unit
          (λ _ t. Effect false false s t)
          (elim o [
            | done rs t ↦ done (f rs) (record t { stats = dec_queued_http_requests t.stats })
            | waits t ↦ waits t
            | fatal ↦ fatal
          ])
  answer_outcome-Effect g s now (done rs t) c f = answered-Effect s t now c f.0
  answer_outcome-Effect g s now (waits t) c f = tt
  answer_outcome-Effect g s now fatal c f = f

  -- A request to a rqlite endpoint, from a state of rest with the three queue lengths in range,
  -- leaves a state of rest when it ends, meets no fatal error of a mutex, and keeps the queue
  -- lengths, that of the HTTP requests included, and the account of transactions: in every mode,
  -- authorized or not, well-formed or not, with `transaction` or without; this if the generated
  -- transaction IDs are not empty.
  pub handle_rqlite-Effect :
      (mode : EndpointMode) (access : Access) (queries : Parsed (List VdlQuery))
      (transaction : Bool) (s : Db W)
      → Rests false false s
      → IsCounted s.stats
      → s.stats.queued_http_requests < int64_mod
      → Ensures Unit
          (λ _ t. Effect false false s t)
          (handle_rqlite e mode access queries transaction s)
  unfolding handle_rqlite
  handle_rqlite-Effect mode (refused x) queries transaction s h n c = Effect-refl s h
  handle_rqlite-Effect mode (granted props) (malformed x) transaction s h n c = Effect-refl s h
  handle_rqlite-Effect mode (granted props) (parsed queries) transaction s h n c =
      let now = e.now s.world in
      answer_outcome-Effect answered s now
        (execute_rqlite_queries e (props_of_mode mode props) queries transaction (arrived now s)) c
        (rqlite_queries-Leaves (props_of_mode mode props) queries transaction (arrived now s)
          (ground arith) (arrived-IsCounted now s n))
