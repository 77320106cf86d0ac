-- ===== src/Server/Serves.antt =====
-- What a server lets its clients do to its database, request after request.
use nsqlite.Prelude.{
  ℕ, ◌≡◌, ◌⊎◌, inl, inr, refl, sym, ap, ◌∙◌, false, Option, none, some, Text, is_empty, arith,
}
use nsqlite.Auth.Tokens.{AuthRole, Crypto}
use nsqlite.Auth.Check.{AuthState, auth_is_disabled, scan}
use nsqlite.Auth.Requests.{AuthError, Access, granted, refused}
use nsqlite.Auth.Cache.{NoCollision}
use nsqlite.Config.Settings.{Config}
use nsqlite.Config.Access.{auth_of}
use nsqlite.Stats.Defs.{new_db_stats}
use nsqlite.Db.Types.{Engine}
use nsqlite.Db.State.{Db}
use nsqlite.Db.Invariant.{IsBalanced, new_db-IsBalanced}
use nsqlite.Server.Rpc.{rpc_handler}
use nsqlite.Server.Rqlite.{handle_rqlite}
use nsqlite.Server.Serve.{
  Route, rpc, rqlite, HttpRequest, Serving, route, token_at, authorize, serve_route, serve_at,
  serve,
}
use nsqlite.Server.Guard.{IsHealth, IsGuard, authorize-scan}
use nsqlite.Server.History.{
  Presents, IsUntouched, new_serving, Serves, IsServing, Ends, serve-Ends, Serves-IsServing,
}

-- The request may touch the database of a server with the tokens of `a`.
abbrev pub MayTouch : Crypto → AuthState → Option Route → HttpRequest → Type 0
MayTouch c a none r = ⊥
MayTouch c a (some to) r =
    IsHealth to ⊎ ((role : AuthRole) × (scan c (token_at to r) a.auth_tokens ≡ some role))

module _ {W : Type 0} (c : Crypto) (e : Engine W)
    (uuid_nonempty : (w : W) → is_empty (e.new_uuid w).0 ≡ false) (P : Text → Type 0) where
  new_serving-IsServing :
      (salt : Text) (conf : Config) (w : W)
      → IsServing c e uuid_nonempty P (auth_of salt conf) 0 0 (new_serving c e salt conf w)
  unfolding new_db_stats
  new_serving-IsServing salt conf w = record {
    guard = record { sound = tt; tokens = refl; salt = refl };
    balanced = new_db-IsBalanced e uuid_nonempty w;
    http = refl;
  }

  refused-IsUntouched :
      (to : Route) (r : HttpRequest) (x : AuthError) (auth : AuthState) (db : Db W)
      → IsUntouched db (serve_route c e to r (refused x, auth) db)
  unfolding serve_route rpc_handler handle_rqlite
  refused-IsUntouched (rpc n o) r x auth db = refl
  refused-IsUntouched (rqlite mode) r x auth db = refl

  same_collisions :
      (a b : AuthState)
      → b.auth_token_salt ≡ a.auth_token_salt
      → NoCollision c P a
      → NoCollision c P b
  same_collisions a b h inj x y p q k = inj x y p q (rw (sym h) k)

  same_disabled :
      (a b : AuthState)
      → b.auth_tokens ≡ a.auth_tokens
      → auth_is_disabled a ≡ false
      → auth_is_disabled b ≡ false
  unfolding auth_is_disabled
  same_disabled a b k on = ap (λ ts. is_empty ts) k ∙ on

  route-guarded :
      (a b : AuthState) (to : Route) (r : HttpRequest) (access : Access) (auth : AuthState)
      (db : Db W)
      → IsGuard c P a b
      → NoCollision c P a
      → auth_is_disabled a ≡ false
      → P (token_at to r)
      → (authorize c to r b).0 ≡ access
      → IsUntouched db (serve_route c e to r (access, auth) db) ⊎ MayTouch c a (some to) r
  route-guarded a b to r (refused x) auth db g inj on p k = inl (refused-IsUntouched to r x auth db)
  route-guarded a b to r (granted props) auth db g inj on p k =
      elim (authorize-scan c P b to r {props = props} p (same_collisions a b g.salt inj) g.sound
        (same_disabled a b g.tokens on) k) [
          | inl health ↦ inr (inl health)
          | inr known ↦ inr (inr (props.role, ground (arith, known, g.tokens)))
        ]

  at-guarded :
      (a : AuthState) (to : Option Route) (r : HttpRequest) (s : Serving W)
      → IsGuard c P a s.auth
      → NoCollision c P a
      → auth_is_disabled a ≡ false
      → Presents P to r
      → IsUntouched s.db (serve_at c e to r s) ⊎ MayTouch c a to r
  unfolding serve_at
  at-guarded a none r s g inj on p = inl refl
  at-guarded a (some to) r s g inj on p =
      route-guarded a s.auth to r (authorize c to r s.auth).0 (authorize c to r s.auth).1 s.db g inj
        on p refl

  -- After any requests (each ended before the next), ticks, rounds of the cleanup and changes of
  -- the environment on a new server with authentication, the next request leaves the database as it
  -- was, or goes to System.health, or presents, on its route, a token that the configured ones
  -- accept; this if no two presented tokens have one salted hash and the generated transaction IDs
  -- are not empty.
  pub serve_guarded :
      (salt : Text) (conf : Config) (w : W) {x y : ℕ} {s : Serving W}
      → Serves c e P (new_serving c e salt conf w) x y s
      → NoCollision c P (auth_of salt conf)
      → auth_is_disabled (auth_of salt conf) ≡ false
      → (r : HttpRequest) → Presents P (route r.method r.path) r
      → IsUntouched s.db (serve c e r s) ⊎ MayTouch c (auth_of salt conf) (route r.method r.path) r
  unfolding serve
  serve_guarded salt conf w {s} k inj on r p =
      let h =
        Serves-IsServing c e uuid_nonempty P (auth_of salt conf) (new_serving-IsServing salt conf w)
          k in
      at-guarded (auth_of salt conf) (route r.method r.path) r s h.guard inj on p

  -- After any requests (each ended before the next), ticks, rounds of the cleanup and changes of
  -- the environment on a new server, each whole, the database is balanced: `txMu` is held just
  -- while a transaction is open, the other mutexes are free, and the transactions that the counters
  -- and the forgotten minutes count as begun are, modulo 2^64, those that they count as ended and
  -- the open one; the next request meets no fatal error of a mutex, and when it ends, the database
  -- is balanced again, with nothing more forgotten, no HTTP request is queued, the tokens and the
  -- salt are those of the start, and each cached role is that of an accepted token that was
  -- presented; this if the generated transaction IDs are not empty.
  pub Serves-Ends :
      (salt : Text) (conf : Config) (w : W) {x y : ℕ} {s : Serving W}
      → Serves c e P (new_serving c e salt conf w) x y s
      → (r : HttpRequest) → Presents P (route r.method r.path) r
      → IsBalanced e uuid_nonempty x y s.db
        × Ends c e uuid_nonempty P (auth_of salt conf) x y (serve c e r s)
  Serves-Ends salt conf w {s} k r p =
      let h =
        Serves-IsServing c e uuid_nonempty P (auth_of salt conf) (new_serving-IsServing salt conf w)
          k in
      (h.balanced, serve-Ends c e uuid_nonempty P (auth_of salt conf) r s p h)
