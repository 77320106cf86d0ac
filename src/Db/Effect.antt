-- ===== src/Db/Effect.antt =====
-- What one call does to the transaction state: the invariant between calls, and the effect that
-- every part of a call has.
use nsqlite.Prelude.{
  ℕ, ◌+◌, ◌%◌, ◌^◌, ◌≡◌, ◌∙◌, Bool, true, false, not, ◌||◌, [], is_empty, arith, if◌then◌else◌,
}
use nsqlite.Stats.Balance.{begun, ended}
use nsqlite.Db.Types.{Query}
use nsqlite.Db.State.{Db, Outcome, done, waits, fatal}

module _ {W : Type 0} where
  -- `txMu` is held while a transaction is open, or by a write outside a transaction (`by_write`),
  -- and not otherwise; `op` tells whether `txOpMu` is held; an owner is set only with a transaction.
  pub record Rests (op by_write : Bool) (s : Db W) : Type 0 where
    pub write_free : s.write_mu ≡ false
    pub op_state : s.tx_op_mu ≡ op
    pub tx_held : s.tx_mu ≡ (by_write || not (is_empty s.tx_id))
    pub alone : by_write ≡ true → is_empty s.tx_id ≡ true
    pub unowned : is_empty s.tx_id ≡ true → s.tx_owner ≡ []

  -- 1 while a transaction is open
  abbrev pub opened : Db W → ℕ
  opened s = if is_empty s.tx_id then 0 else 1

  -- What a part of a call that begins at `s` and ends at `t` has done.
  pub record Effect (op by_write : Bool) (s t : Db W) : Type 0 where
    pub rests : Rests op by_write t
    pub balance :
        (begun t.stats + ended s.stats + opened s) % 2 ^ 64
        ≡ (begun s.stats + ended t.stats + opened t) % 2 ^ 64
    pub queued_begins : t.stats.queued_begins ≡ s.stats.queued_begins
    pub queued_writes : t.stats.queued_writes ≡ s.stats.queued_writes
    pub queued_http_requests : t.stats.queued_http_requests ≡ s.stats.queued_http_requests

  pub Effect-trans :
      {op op' lk lk' : Bool} {s t u : Db W}
      → Effect op lk s t
      → Effect op' lk' t u
      → Effect op' lk' s u
  Effect-trans f g = record {
    rests = g.rests;
    balance = omega (arith, f.balance, g.balance);
    queued_begins = g.queued_begins ∙ f.queued_begins;
    queued_writes = g.queued_writes ∙ f.queued_writes;
    queued_http_requests = g.queued_http_requests ∙ f.queued_http_requests;
  }

  -- A postcondition of a call that ends. It waits only where `May` allows it, and it never stops
  -- at a fatal error.
  abbrev pub Ensures : {A : Type 0} → Type 0 → (A → Db W → Type 0) → Outcome W A → Type 0
  Ensures May P (done a t) = P a t
  Ensures May P (waits t) = May
  Ensures May P fatal = ⊥

  -- What a query may wait for: without a transaction ID, the end of the open transaction.
  abbrev pub MayWait : Query → Db W → Type 0
  MayWait q s = (is_empty q.tx_id ≡ true) × (is_empty s.tx_id ≡ false)
