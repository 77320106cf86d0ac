-- ===== src/Server/History.antt =====
-- A server and its clients: requests, ticks of the idle monitor and changes of the environment, one
-- after another.
use nsqlite.Prelude.{◌+◌, ℕ, ◌≡◌, subst, false, Option, none, some, Text, is_empty, arith}
use nsqlite.Auth.Tokens.{Crypto}
use nsqlite.Auth.Check.{AuthState}
use nsqlite.Auth.Requests.{Access}
use nsqlite.Config.Settings.{Config}
use nsqlite.Config.Access.{auth_of}
use nsqlite.Stats.Defs.{cleanup}
use nsqlite.Stats.Forget.{forgotten_begun, forgotten_ended}
use nsqlite.Db.Types.{Engine}
use nsqlite.Db.State.{Db, Outcome, done, waits, fatal}
use nsqlite.Db.Query.{idle_tick}
use nsqlite.Db.Effect.{Effect, Ensures}
use nsqlite.Db.Invariant.{
  new_db, IsBalanced, cleanup-IsBalanced, world-IsBalanced, Effect-IsBalanced, idle_tick-Effect,
}
use nsqlite.Server.Rpc.{rpc_handler}
use nsqlite.Server.RpcEffect.{rpc_handler-Effect}
use nsqlite.Server.Rqlite.{handle_rqlite}
use nsqlite.Server.Transaction.{handle_rqlite-Effect}
use nsqlite.Server.Serve.{
  Route, rpc, rqlite, HttpRequest, Serving, Reply, Served, replied, held_up, stopped, reply_with,
  route, token_at, authorize, serve_route, serve_at, serve,
}
use nsqlite.Server.Guard.{IsGuard, authorize-IsGuard}

-- The token of a request that has a route is one of those in `P`.
abbrev pub Presents : (Text → Type 0) → Option Route → HttpRequest → Type 0
Presents P none r = Unit
Presents P (some to) r = P (token_at to r)

-- The database is left as it was.
abbrev pub IsUntouched : {W : Type 0} → Db W → Served W → Type 0
IsUntouched db (replied a t) = t.db ≡ db
IsUntouched db (held_up t) = t.db ≡ db
IsUntouched db stopped = ⊥

module _ {W : Type 0} (c : Crypto) (e : Engine W) where
  abbrev pub new_serving : Text → Config → W → Serving W
  new_serving salt conf w = record { auth = auth_of salt conf; db = new_db e w }

  module _ (P : Text → Type 0) where
    -- What a server is after requests with tokens in `P`, each ended before the next, with what
    -- the rounds of the cleanup worker forgot of the transactions begun and ended.
    pub data Serves (s : Serving W) : (x y : ℕ) → Serving W → Type 0 where
      begins : Serves s 0 0 s
      replies :
          {x y : ℕ} {t u : Serving W} (r : HttpRequest) (a : Reply)
          → Serves s x y t
          → Presents P (route r.method r.path) r
          → serve c e r t ≡ replied a u
          → Serves s x y u
      ticks :
          {x y : ℕ} {t : Serving W} (timeout : ℕ) {db : Db W}
          → Serves s x y t
          → idle_tick e timeout t.db ≡ done tt db
          → Serves s x y (record t { db = db })
      cleans :
          {x y : ℕ} {t : Serving W}
          → Serves s x y t
          → Serves s
              (x + forgotten_begun (e.now t.db.world) t.db.stats)
              (y + forgotten_ended (e.now t.db.world) t.db.stats)
              (record t { db = record t.db { stats = cleanup (e.now t.db.world) t.db.stats } })
      turns :
          {x y : ℕ} {t : Serving W} (w : W)
          → Serves s x y t
          → Serves s x y (record t { db = record t.db { world = w } })

-- A server at rest between two requests: its check is sound for the tokens and the salt of `a`.
module _ {W : Type 0} (c : Crypto) (e : Engine W)
    (uuid_nonempty : (w : W) → is_empty (e.new_uuid w).0 ≡ false) (P : Text → Type 0)
    (a : AuthState) where
  pub record IsServing (x y : ℕ) (s : Serving W) : Type 0 where
    pub guard : IsGuard c P a s.auth
    pub balanced : IsBalanced e uuid_nonempty x y s.db
    pub http : s.db.stats.queued_http_requests ≡ 0

  -- What the end of a request leaves; it may wait for a mutex, but never stops at a fatal error.
  abbrev pub Ends : ℕ → ℕ → Served W → Type 0
  Ends x y (replied a t) = IsServing x y t
  Ends x y (held_up t) = Unit
  Ends x y stopped = ⊥

  after-IsServing :
      {x y : ℕ} (s : Serving W) (auth : AuthState) (t : Db W)
      → IsServing x y s
      → IsGuard c P a auth
      → Effect false false s.db t
      → IsServing x y (record { auth = auth; db = t })
  after-IsServing s auth t h g f = record {
    guard = g;
    balanced = Effect-IsBalanced e uuid_nonempty f h.balanced;
    http = ground (arith, f.queued_http_requests, h.http);
  }

  reply-Ends :
      {x y : ℕ} {A : Type 0} (f : A → Reply) (s : Serving W) (auth : AuthState) (o : Outcome W A)
      → IsServing x y s
      → IsGuard c P a auth
      → Ensures Unit (λ _ t. Effect false false s.db t) o
      → Ends x y (reply_with f auth o)
  reply-Ends f s auth (done x t) h g k = after-IsServing s auth t h g k
  reply-Ends f s auth (waits t) h g k = tt
  reply-Ends f s auth fatal h g k = k

  serve_route-Ends :
      {x y : ℕ} (to : Route) (r : HttpRequest) (access : Access) (auth : AuthState) (s : Serving W)
      → IsServing x y s
      → IsGuard c P a auth
      → Ends x y (serve_route c e to r (access, auth) s.db)
  unfolding serve_route
  serve_route-Ends (rpc n o) r access auth s h g =
      reply-Ends _ s auth (rpc_handler e n o access r.rpc_body s.db) h g (
        rpc_handler-Effect e uuid_nonempty n o access r.rpc_body s.db h.balanced.rests
          h.balanced.counted (ground (arith, h.http)))
  serve_route-Ends (rqlite mode) r access auth s h g =
      reply-Ends _ s auth (handle_rqlite e mode access r.queries r.transaction s.db) h g (
        handle_rqlite-Effect e uuid_nonempty mode access r.queries r.transaction s.db
          h.balanced.rests h.balanced.counted (ground (arith, h.http)))

  serve_at-Ends :
      {x y : ℕ} (to : Option Route) (r : HttpRequest) (s : Serving W)
      → Presents P to r
      → IsServing x y s
      → Ends x y (serve_at c e to r s)
  unfolding serve_at
  serve_at-Ends none r s p h = h
  serve_at-Ends (some to) r s p h =
      serve_route-Ends to r (authorize c to r s.auth).0 (authorize c to r s.auth).1 s h
        (authorize-IsGuard c P a s.auth to r p h.guard)

  pub serve-Ends :
      {x y : ℕ} (r : HttpRequest) (s : Serving W)
      → Presents P (route r.method r.path) r
      → IsServing x y s
      → Ends x y (serve c e r s)
  unfolding serve
  serve-Ends r s p h = serve_at-Ends (route r.method r.path) r s p h

  cleaned-IsServing :
      {x y : ℕ} (t : Serving W)
      → IsServing x y t
      → IsServing
          (x + forgotten_begun (e.now t.db.world) t.db.stats)
          (y + forgotten_ended (e.now t.db.world) t.db.stats)
          (record t { db = record t.db { stats = cleanup (e.now t.db.world) t.db.stats } })
  unfolding cleanup
  cleaned-IsServing t g = record {
    guard = g.guard;
    balanced = cleanup-IsBalanced e uuid_nonempty (e.now t.db.world) t.db g.balanced;
    http = g.http;
  }

  pub Serves-IsServing :
      {s : Serving W} {x y : ℕ} {t : Serving W}
      → IsServing 0 0 s
      → Serves c e P s x y t
      → IsServing x y t
  Serves-IsServing h begins = h
  Serves-IsServing h (replies {x} {y} {t} r a k p ends) =
      subst (Ends x y) ends (serve-Ends r t p (Serves-IsServing h k))
  Serves-IsServing h (ticks {t} timeout {db} k ends) =
      let g = Serves-IsServing h k in
      after-IsServing t t.auth db g g.guard (
        subst (λ o. Ensures ⊥ (λ _ u. Effect false false t.db u) o) ends
          (idle_tick-Effect e uuid_nonempty timeout t.db g.balanced.rests))
  Serves-IsServing h (cleans {t} k) = let g = Serves-IsServing h k in cleaned-IsServing t g
  Serves-IsServing h (turns {t} w k) =
      let g = Serves-IsServing h k in
      record {
        guard = g.guard;
        balanced = world-IsBalanced e uuid_nonempty w g.balanced;
        http = g.http;
      }
