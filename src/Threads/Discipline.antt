-- ===== src/Threads/Discipline.antt =====
-- The discipline of the mutexes that the program of a call keeps to, step by step, with what a
-- thread that keeps to it knows of the shared state.
use nsqlite.Prelude.{◌≡◌, refl, subst, sym, Bool, true, false, [], Text, is_empty}
use nsqlite.Db.State.{Db}
use nsqlite.Threads.Program.{
  Mutex, tx_mu, tx_op_mu, write_mu, Use, plain, on_read_write_conn, Program, finish, lock, unlock,
  access, ◌>>=◌, ◌>>◌, load, store, call, acquire_mutex, release_mutex, pure,
}

-- The mutexes that a thread holds. `txMu` passes to the open transaction, and back to the thread
-- that ends it. `tx_id` is the ID of the open transaction, once the thread has seen it under
-- `txOpMu`.
pub record Held : Type 0 where
  pub tx : Bool
  pub op : Bool
  pub write : Bool
  pub tx_id : Text

abbrev pub bare : Held
bare = record { tx = false; op = false; write = false; tx_id = [] }

module _ {W : Type 0} where
  pub record Knows (h : Held) (s : Db W) : Type 0 where
    pub tx_known : h.tx ≡ true → (s.tx_mu ≡ true) × (is_empty s.tx_id ≡ true)
    pub op_known : h.op ≡ true → s.tx_op_mu ≡ true
    pub write_known : h.write ≡ true → s.write_mu ≡ true
    pub open_known : is_empty h.tx_id ≡ false → (h.op ≡ true) × (s.tx_id ≡ h.tx_id)

  -- An access changes no mutex, and opens or closes a transaction only with `txMu`.
  pub record Frames (s t : Db W) : Type 0 where
    pub tx_same : t.tx_mu ≡ s.tx_mu
    pub op_same : t.tx_op_mu ≡ s.tx_op_mu
    pub write_same : t.write_mu ≡ s.write_mu

  pub data Change (h : Held) (s t : Db W) : Held → Type 0 where
    keeps : t.tx_id ≡ s.tx_id → Change h s t h
    learns : t.tx_id ≡ s.tx_id → h.op ≡ true → Change h s t (record h { tx_id = s.tx_id })
    opens : h.tx ≡ true → is_empty t.tx_id ≡ false → Change h s t (record h { tx = false })
    closes :
        is_empty h.tx_id ≡ false
        → h.tx ≡ false
        → is_empty t.tx_id ≡ true
        → Change h s t (record h { tx = true; tx_id = [] })

-- The order of the mutexes: `writeMu` comes last, and `txMu` and `txOpMu` are taken by a thread
-- that holds none.
abbrev pub MayLock : Mutex → Held → Type 0
MayLock write_mu h = h.write ≡ false
MayLock _ h = (h.tx ≡ false) × (h.op ≡ false) × (h.write ≡ false)

abbrev pub holds : Mutex → Held → Bool
holds tx_mu h = h.tx
holds tx_op_mu h = h.op
holds write_mu h = h.write

abbrev pub with_mutex : Mutex → Held → Held
with_mutex tx_mu h = record h { tx = true }
with_mutex tx_op_mu h = record h { op = true }
with_mutex write_mu h = record h { write = true }

abbrev pub without_mutex : Mutex → Held → Held
without_mutex tx_mu h = record h { tx = false }
without_mutex tx_op_mu h = record h { op = false; tx_id = [] }
without_mutex write_mu h = record h { write = false }

-- The read-write connection is used with `writeMu`: for a call without a transaction ID with
-- `txMu`, and else for the open transaction.
abbrev pub MayUse : Use → Held → Type 0
MayUse plain h = Unit
MayUse (on_read_write_conn tx_id) h =
    (h.write ≡ true)
    × (is_empty tx_id ≡ true → h.tx ≡ true)
    × (is_empty tx_id ≡ false → h.tx_id ≡ tx_id)

-- `Q` of what is held at the end.
unfoldable pub Obeys : {W A : Type 0} → (Held → A → Type 0) → Held → Program W A → Type 0
Obeys Q h (finish a) = Q h a
Obeys Q h (lock m p) = MayLock m h × Obeys Q (with_mutex m h) p
Obeys Q h (unlock m p) = (holds m h ≡ true) × Obeys Q (without_mutex m h) p
Obeys {W} Q h (access u f k) =
    MayUse u h
    × ((s : Db W)
        → Knows h s
        → Frames s (f s) × ((h' : Held) × Change h s (f s) h' × Obeys Q h' (k s)))

module _ {W A B : Type 0} where
  pub Obeys-bind :
      (Q : Held → A → Type 0) (R : Held → B → Type 0) (h : Held) (p : Program W A)
      (f : A → Program W B)
      → Obeys Q h p
      → ((h' : Held) (a : A) → Q h' a → Obeys R h' (f a))
      → Obeys R h (p >>= f)
  unfolding Obeys ◌>>=◌
  Obeys-bind Q R h (finish a) f o next = next h a o
  Obeys-bind Q R h (lock m p) f (may, o) next = (may, Obeys-bind Q R (with_mutex m h) p f o next)
  Obeys-bind Q R h (unlock m p) f (own, o) next =
      (own, Obeys-bind Q R (without_mutex m h) p f o next)
  Obeys-bind Q R h (access u g k) f (may, o) next = (
    may,
    λ s known.
        let (same, (h', change, o')) = o s known in
        (same, (h', change, Obeys-bind Q R h' (k s) f o' next)),
  )

  -- What follows a part that gives back what it takes.
  pub Obeys-then :
      (R : Held → B → Type 0) (h : Held) (p : Program W A) (f : A → Program W B)
      → Obeys (λ h' _. h' ≡ h) h p
      → ((a : A) → Obeys R h (f a))
      → Obeys R h (p >>= f)
  Obeys-then R h p f o next =
      Obeys-bind (λ h' _. h' ≡ h) R h p f o
        (λ h' a same. subst (λ g. Obeys R g (f a)) (sym same) (next a))

-- One access before the rest.
module _ {W B : Type 0} (R : Held → B → Type 0) (h : Held) where
  pub load-then :
      {A : Type 0} (f : Db W → A) (k : A → Program W B)
      → ((s : Db W) → Knows h s → Obeys R h (k (f s)))
      → Obeys R h (load f >>= k)
  unfolding Obeys ◌>>=◌
  load-then f k o = (
    tt,
    λ s known.
        (record { tx_same = refl; op_same = refl; write_same = refl }, (h, keeps refl, o s known)),
  )

  -- What the thread learns of the open transaction under `txOpMu`.
  pub learn-then :
      (k : Text → Program W B)
      → h.op ≡ true
      → ((tx_id : Text) → Obeys R (record h { tx_id = tx_id }) (k tx_id))
      → Obeys R h (load (λ s. s.tx_id) >>= k)
  unfolding Obeys ◌>>=◌
  learn-then k held o = (
    tt,
    λ s known. (
      record { tx_same = refl; op_same = refl; write_same = refl },
      (record h { tx_id = s.tx_id }, learns refl held, o s.tx_id),
    ),
  )

  pub call-then :
      {A : Type 0} (u : Use) (f : W → A × W) (k : A → Program W B)
      → MayUse u h
      → ((w : W) → Obeys R h (k (f w).0))
      → Obeys R h (call u f >>= k)
  unfolding Obeys ◌>>=◌
  call-then u f k may o = (
    may,
    λ s known.
        (record { tx_same = refl; op_same = refl; write_same = refl }, (h, keeps refl, o s.world)),
  )

  pub call-end :
      (u : Use) (f : W → B × W) → MayUse u h → ((w : W) → R h (f w).0) → Obeys R h (call u f)
  unfolding Obeys
  call-end u f may r = (
    may,
    λ s known.
        (record { tx_same = refl; op_same = refl; write_same = refl }, (h, keeps refl, r s.world)),
  )

  pub store-then :
      (f : Db W → Db W) (p : Program W B)
      → ((s : Db W) → Frames s (f s))
      → ((s : Db W) → Knows h s → (h' : Held) × Change h s (f s) h' × Obeys R h' p)
      → Obeys R h (store f >> p)
  unfolding Obeys ◌>>=◌
  store-then f p frame o = (tt, λ s known. (frame s, o s known))

  pub plain-then :
      (f : Db W → Db W) (p : Program W B)
      → ((s : Db W) → Frames s (f s) × ((f s).tx_id ≡ s.tx_id))
      → Obeys R h p
      → Obeys R h (store f >> p)
  plain-then f p same o = store-then f p (λ s. (same s).0) (λ s known. (h, keeps (same s).1, o))

  pub lock-then :
      (m : Mutex) (p : Program W B)
      → MayLock m h
      → Obeys R (with_mutex m h) p
      → Obeys R h (acquire_mutex m >> p)
  unfolding Obeys ◌>>=◌
  lock-then m p may o = (may, o)

  pub unlock-then :
      (m : Mutex) (p : Program W B)
      → holds m h ≡ true
      → Obeys R (without_mutex m h) p
      → Obeys R h (release_mutex m >> p)
  unfolding Obeys ◌>>=◌
  unlock-then m p own o = (own, o)

pub unlock-end :
    (W : Type 0) (R : Held → Unit {0} → Type 0) (h : Held) (m : Mutex)
    → holds m h ≡ true
    → R (without_mutex m h) tt
    → Obeys {W = W} R h (release_mutex m)
unfolding Obeys
unlock-end W R h m own r = (own, r)

pub pure-Obeys :
    (W : Type 0) {B : Type 0} (R : Held → B → Type 0) (h : Held) (b : B)
    → R h b
    → Obeys {W = W} R h (pure b)
unfolding Obeys
pure-Obeys W R h b r = r

-- A weaker postcondition.
pub Obeys-weaken :
    {W A : Type 0} (Q R : Held → A → Type 0) (h : Held) (p : Program W A)
    → Obeys Q h p
    → ((h' : Held) (a : A) → Q h' a → R h' a)
    → Obeys R h p
unfolding Obeys
Obeys-weaken Q R h (finish a) o next = next h a o
Obeys-weaken Q R h (lock m p) (may, o) next = (may, Obeys-weaken Q R (with_mutex m h) p o next)
Obeys-weaken Q R h (unlock m p) (own, o) next = (own, Obeys-weaken Q R (without_mutex m h) p o next)
Obeys-weaken Q R h (access u g k) (may, o) next = (
  may,
  λ s known.
      let (same, (h', change, o')) = o s known in
      (same, (h', change, Obeys-weaken Q R h' (k s) o' next)),
)
