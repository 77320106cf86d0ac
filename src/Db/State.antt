-- ===== src/Db/State.antt =====
-- The state of `DB` and the operations on its mutexes. A call ends, waits for a mutex, or is
-- stopped by Go's fatal error on the unlock of an unlocked mutex.
use nsqlite.Prelude.{ℕ, Bool, true, false, Text}
use nsqlite.Stats.Defs.{DbStats}
use nsqlite.Db.Types.{Engine}

pub record Db (W : Type 0) : Type 0 where
  pub world : W
  pub stats : DbStats
  pub tx_id : Text
  pub tx_owner : Text
  pub tx_last_used : ℕ
  pub tx_mu : Bool
  pub tx_op_mu : Bool
  pub write_mu : Bool

pub data Outcome {ℓ} (W : Type 0) (A : Type ℓ) : Type ℓ where
  done : A → Db W → Outcome W A
  -- the call waits for a mutex, with the state as it has left it
  waits : Db W → Outcome W A
  fatal : Outcome W A

abbrev pub M {ℓ} : Type 0 → Type ℓ → Type ℓ
M W A = Db W → Outcome W A

infixl 5 ◌>>=◌ ◌>>◌
abbrev pub ◌>>=◌ {ℓ κ} : {W : Type 0} {A : Type ℓ} {B : Type κ} → M W A → (A → M W B) → M W B
◌>>=◌ m f s = elim (m s) [ done a t ↦ f a t | waits t ↦ waits t | fatal ↦ fatal ]

abbrev pub ◌>>◌ {ℓ κ} : {W : Type 0} {A : Type ℓ} {B : Type κ} → M W A → M W B → M W B
m >> k = m >>= λ _. k

module _ {W : Type 0} where
  abbrev pub pure {ℓ} : {A : Type ℓ} → A → M W A
  pure a s = done a s

  abbrev pub gets {ℓ} : {A : Type ℓ} → (Db W → A) → M W A
  gets f s = done (f s) s

  abbrev pub modify : (Db W → Db W) → M W (Unit {0})
  modify f s = done tt (f s)

  -- A call of the environment.
  abbrev pub on_world {ℓ} : {A : Type ℓ} → (W → A × W) → M W A
  on_world f s = done (f s.world).0 (record s { world = (f s.world).1 })

  abbrev pub on_stats : (DbStats → DbStats) → M W (Unit {0})
  on_stats f s = done tt (record s { stats = f s.stats })

  -- `Lock` and `Unlock`, by whether the mutex is held.
  abbrev pub acquire : Bool → Db W → Db W → Outcome W (Unit {0})
  acquire true s t = waits s
  acquire false s t = done tt t

  abbrev pub release : Bool → Db W → Outcome W (Unit {0})
  release true t = done tt t
  release false t = fatal

  abbrev pub lock_tx_mu : M W (Unit {0})
  lock_tx_mu s = acquire s.tx_mu s (record s { tx_mu = true })

  abbrev pub unlock_tx_mu : M W (Unit {0})
  unlock_tx_mu s = release s.tx_mu (record s { tx_mu = false })

  abbrev pub lock_tx_op_mu : M W (Unit {0})
  lock_tx_op_mu s = acquire s.tx_op_mu s (record s { tx_op_mu = true })

  abbrev pub unlock_tx_op_mu : M W (Unit {0})
  unlock_tx_op_mu s = release s.tx_op_mu (record s { tx_op_mu = false })

  abbrev pub lock_write_mu : M W (Unit {0})
  lock_write_mu s = acquire s.write_mu s (record s { write_mu = true })

  abbrev pub unlock_write_mu : M W (Unit {0})
  unlock_write_mu s = release s.write_mu (record s { write_mu = false })

  -- `db.DBStats.IncReads()` and the like, which read the clock
  abbrev pub count : Engine W → (ℕ → DbStats → DbStats) → M W (Unit {0})
  count e f s = done tt (record s { stats = f (e.now s.world) s.stats })

  -- `db.txLastUsed.Store(time.Now())`
  abbrev pub touch : Engine W → M W (Unit {0})
  touch e s = done tt (record s { tx_last_used = e.now s.world })
