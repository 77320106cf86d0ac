-- ===== src/Startup/Resources.antt =====
-- What a connection holds in C: its handle and the context of its authorizer.
use nsqlite.Prelude.{
  ℕ, suc, ◌+◌, ◌-◌, ◌≡◌, refl, Bool, true, false, List, [], ◌∷◌, Option, none, some, Text, ◌==◌,
  arith, inl, inr, Bool-cases, ==_iff,
}
use nsqlite.Startup.Connection.{
  Api, Conn, Opened, opened, refused, register, with_authorizer, open_conn, close_conn,
  post_connect, post_connect_failed, finished, after_open, new_conn, close_driver_conn,
}

abbrev pub one_if : Bool → ℕ
one_if true = 1
one_if false = 0

-- The open handles and the contexts, and what the C functions do to their numbers: an open that
-- succeeds gives a handle, and a close that succeeds takes it.
pub record Ledger {W : Type 0} (api : Api W) : Type 0 where
  pub handles : W → ℕ
  pub contexts : W → ℕ
  pub open_handles :
      (p : Text) (w : W)
      → handles (api.sqlite3_open p w).2 ≡ handles w + one_if (api.sqlite3_open p w).1
  pub open_contexts : (p : Text) (w : W) → contexts (api.sqlite3_open p w).2 ≡ contexts w
  pub open_handle :
      (p : Text) (w : W) → (api.sqlite3_open p w).0 ≡ 0 → (api.sqlite3_open p w).1 ≡ true
  pub close_handles : (b : Bool) (w : W) → handles (api.sqlite3_close b w) ≡ handles w - one_if b
  pub close_contexts : (b : Bool) (w : W) → contexts (api.sqlite3_close b w) ≡ contexts w
  pub close_v2_handles :
      (w : W)
      → handles (api.sqlite3_close_v2 w).1 ≡ handles w - one_if ((api.sqlite3_close_v2 w).0 == 0)
  pub close_v2_contexts : (w : W) → contexts (api.sqlite3_close_v2 w).1 ≡ contexts w
  pub new_handles : (w : W) → handles (api.authorizer_ctx_new w).1 ≡ handles w
  pub new_contexts :
      (w : W)
      → contexts (api.authorizer_ctx_new w).1 ≡ contexts w + one_if (api.authorizer_ctx_new w).0
  pub free_handles : (w : W) → handles (api.authorizer_ctx_free w) ≡ handles w
  pub free_contexts : (w : W) → contexts (api.authorizer_ctx_free w) ≡ contexts w - 1
  pub set_handles : (w : W) → handles (api.set_authorizer w).1 ≡ handles w
  pub set_contexts : (w : W) → contexts (api.set_authorizer w).1 ≡ contexts w
  pub query_handles : (q : Text) (w : W) → handles (api.query q w).1 ≡ handles w
  pub query_contexts : (q : Text) (w : W) → contexts (api.query q w).1 ≡ contexts w

module _ {W : Type 0} (api : Api W) (l : Ledger api) where
  -- `h` handles and `c` contexts at `w`
  abbrev pub Counts : ℕ → ℕ → W → Type 0
  Counts h c w = (l.handles w ≡ h) × (l.contexts w ≡ c)

  -- A connection that is open adds one of each; a refusal adds none.
  abbrev pub Adds : ℕ → ℕ → Opened W → Type 0
  Adds h c (opened conn w) =
      (conn ≡ record { c_db = true; authorizer_ctx = true }) × Counts (suc h) (suc c) w
  Adds h c (refused x w) = Counts h c w

  register-Adds : (h c : ℕ) (w : W) → Counts (suc h) (suc c) w → Adds h c (register api true w)
  unfolding register
  register-Adds h c w k =
      let w1 = (api.set_authorizer w).1 in
      let w2 = api.authorizer_ctx_free w1 in
      ground (
        arith,
        l.set_handles w,
        l.set_contexts w,
        l.free_handles w1,
        l.free_contexts w1,
        l.close_handles true w2,
        l.close_contexts true w2,
      )

  with_authorizer-Adds :
      (h c : ℕ) (b : Bool) (w : W)
      → b ≡ true
      → Counts (suc h) c w
      → Adds h c (with_authorizer api b w)
  unfolding with_authorizer
  with_authorizer-Adds h c false w e k = absurd (ground arith)
  with_authorizer-Adds h c true w e k = elim (Bool-cases (api.authorizer_ctx_new w).0) [
    | inl there ↦ rw there (
        register-Adds h c (api.authorizer_ctx_new w).1
          (ground (arith, l.new_handles w, l.new_contexts w)))
    | inr missing ↦ rw missing (
        ground (
          arith,
          l.new_handles w,
          l.new_contexts w,
          l.close_handles true (api.authorizer_ctx_new w).1,
          l.close_contexts true (api.authorizer_ctx_new w).1,
        ))
  ]

  pub open_conn-Adds :
      (path : Text) (w : W) → Adds (l.handles w) (l.contexts w) (open_conn api path w)
  unfolding open_conn
  open_conn-Adds path w = elim (Bool-cases ((api.sqlite3_open path w).0 == 0)) [
    | inl opens ↦ rw opens (
        with_authorizer-Adds (l.handles w) (l.contexts w) (api.sqlite3_open path w).1
          (api.sqlite3_open path w).2
          (l.open_handle path w ((==_iff (api.sqlite3_open path w).0 0).0 opens))
          (ground (
            arith,
            l.open_handles path w,
            l.open_contexts path w,
            l.open_handle path w,
            ==_iff (api.sqlite3_open path w).0 0,
          )))
    | inr fails ↦ rw fails (
        ground (
          arith,
          l.open_handles path w,
          l.open_contexts path w,
          l.close_handles (api.sqlite3_open path w).1 (api.sqlite3_open path w).2,
          l.close_contexts (api.sqlite3_open path w).1 (api.sqlite3_open path w).2,
        ))
  ]

  post_connect-Counts :
      (queries : List Text) (w : W)
      → Counts (l.handles w) (l.contexts w) (post_connect api queries w).1
  unfolding post_connect
  post_connect-Counts [] w = (refl, refl)
  post_connect-Counts (q ∷ qs) w =
      ground
        (arith, l.query_handles q w, l.query_contexts q w, post_connect-Counts qs (api.query q w).1)

  -- What is held after `newConn`: nothing more when the connection was refused before its
  -- post-connect queries, and one of each otherwise, a query that fails included.
  abbrev pub Holds : ℕ → ℕ → Opened W → Type 0
  Holds h c (opened conn w) =
      (conn ≡ record { c_db = true; authorizer_ctx = true }) × Counts (suc h) (suc c) w
  Holds h c (refused (post_connect_failed q x) w) = Counts (suc h) (suc c) w
  Holds h c (refused _ w) = Counts h c w

  finished-Holds :
      (h c : ℕ) (conn : Conn)
      → conn ≡ record { c_db = true; authorizer_ctx = true }
      → (r : Option (Text × Text) × W) → Counts (suc h) (suc c) r.1
      → Holds h c (finished api conn r)
  finished-Holds h c conn e (some (q, x), w) k = k
  finished-Holds h c conn e (none, w) k = (e, k)

  after_open-Holds :
      (h c : ℕ) (queries : List Text) (o : Opened W)
      → Adds h c o
      → Holds h c (after_open api queries o)
  unfolding after_open
  after_open-Holds h c queries (refused x w) k = k
  after_open-Holds h c queries (opened conn w) k =
      finished-Holds h c conn k.0 (post_connect api queries w)
        (ground (arith, post_connect-Counts queries w))

  -- After `newConn`, a connection that was given holds one SQLite handle and one authorizer context
  -- more than before, and both pointers are set; a connection that was refused at its opening holds
  -- nothing more, and one refused by a post-connect query still holds one of each. The C functions
  -- change these counts as `Ledger` says.
  pub new_conn-Holds :
      (dsn : Text) (queries : List Text) (w : W)
      → Holds (l.handles w) (l.contexts w) (new_conn api dsn queries w)
  unfolding new_conn
  new_conn-Holds dsn queries w =
      after_open-Holds (l.handles w) (l.contexts w) queries (open_conn api dsn w)
        (open_conn-Adds dsn w)

  -- A connection with its pointers set, closed: on success both are given back, on an error none.
  pub close_conn-Counts :
      (w : W)
      → let conn : Conn = record { c_db = true; authorizer_ctx = true } in
        let (e, conn', w') = close_driver_conn api conn w in
        elim e as (λ _. Type 0) [
          | none ↦
              Counts (l.handles w - 1) (l.contexts w - 1) w'
              × (conn' ≡ record { c_db = false; authorizer_ctx = false })
          | some x ↦ Counts (l.handles w) (l.contexts w) w' × (conn' ≡ conn)
        ]
  unfolding close_driver_conn close_conn
  close_conn-Counts w = elim (Bool-cases ((api.sqlite3_close_v2 w).0 == 0)) [
    | inl closes ↦ rw closes (
        ground (
          arith,
          l.close_v2_handles w,
          l.close_v2_contexts w,
          l.free_handles (api.sqlite3_close_v2 w).1,
          l.free_contexts (api.sqlite3_close_v2 w).1,
        ))
    | inr fails ↦ rw fails (ground (arith, l.close_v2_handles w, l.close_v2_contexts w))
  ]
