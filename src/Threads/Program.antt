-- ===== src/Threads/Program.antt =====
-- A call as the sequence of its accesses to what the calls share, for calls that run at once: the
-- mutexes of `DB`, its fields, and the connections.
use nsqlite.Prelude.{Bool, true, false, Text}
use nsqlite.Db.State.{Db, done, waits, fatal, acquire, release, M}

pub data Mutex : Type 0 where
  tx_mu tx_op_mu write_mu : Mutex

-- What an access touches: the read-write connection, with the transaction ID that the access is
-- made for, or anything else.
pub data Use : Type 0 where
  plain : Use
  on_read_write_conn : (tx_id : Text) → Use

-- `access` changes the shared state at once; the rest is chosen by the state that it found.
pub data Program (W A : Type 0) : Type 0 where
  finish : A → Program W A
  lock : Mutex → Program W A → Program W A
  unlock : Mutex → Program W A → Program W A
  access : Use → (Db W → Db W) → (Db W → Program W A) → Program W A

infixl 5 ◌>>=◌ ◌>>◌
unfoldable pub ◌>>=◌ : {W A B : Type 0} → Program W A → (A → Program W B) → Program W B
finish a >>= f = f a
lock m p >>= f = lock m (p >>= f)
unlock m p >>= f = unlock m (p >>= f)
access u g k >>= f = access u g (λ s. k s >>= f)

abbrev pub ◌>>◌ : {W A B : Type 0} → Program W A → Program W B → Program W B
p >> q = p >>= λ _. q

module _ {W : Type 0} where
  abbrev pub pure : {A : Type 0} → A → Program W A
  pure a = finish a

  abbrev pub acquire_mutex : Mutex → Program W (Unit {0})
  acquire_mutex m = lock m (finish tt)

  abbrev pub release_mutex : Mutex → Program W (Unit {0})
  release_mutex m = unlock m (finish tt)

  -- An atomic load, and an atomic store or increment.
  abbrev pub load : {A : Type 0} → (Db W → A) → Program W A
  load f = access plain (λ s. s) (λ s. finish (f s))

  abbrev pub store : (Db W → Db W) → Program W (Unit {0})
  store f = access plain f (λ _. finish tt)

  -- A use of the environment.
  abbrev pub call : {A : Type 0} → Use → (W → A × W) → Program W A
  call u f = access u (λ s. record s { world = (f s.world).1 }) (λ s. finish (f s.world).0)

  abbrev pub is_locked : Mutex → Db W → Bool
  is_locked tx_mu s = s.tx_mu
  is_locked tx_op_mu s = s.tx_op_mu
  is_locked write_mu s = s.write_mu

  abbrev pub set_locked : Mutex → Bool → Db W → Db W
  set_locked tx_mu b s = record s { tx_mu = b }
  set_locked tx_op_mu b s = record s { tx_op_mu = b }
  set_locked write_mu b s = record s { write_mu = b }

-- The program of a call that runs alone.
unfoldable pub solo : {W A : Type 0} → Program W A → M W A
solo (finish a) s = done a s
solo (lock m p) s = elim (acquire (is_locked m s) s (set_locked m true s)) [
  | done _ t ↦ solo p t
  | waits t ↦ waits t
  | fatal ↦ fatal
]
solo (unlock m p) s = elim (release (is_locked m s) (set_locked m false s)) [
  | done _ t ↦ solo p t
  | waits t ↦ waits t
  | fatal ↦ fatal
]
solo (access u g k) s = solo (k s) (g s)
