-- ===== src/Server/Guard.antt =====
-- What the authorization of a request keeps, and who is granted.
use nsqlite.Prelude.{
  ◌≡◌, ◌⊎◌, inl, inr, ◌∙◌, ap, true, false, [], ◌∷◌, some, Text, codes, arith, Bool-cases,
  Option-cases, trim_prefix,
}
use nsqlite.Auth.Tokens.{AuthRole, Crypto}
use nsqlite.Auth.Check.{
  AuthState, auth_is_disabled, scan, check_auth_with_cache, authenticate_request,
}
use nsqlite.Auth.Requests.{
  RequestProps, granted, is_call, authorize_rpc_request, authorize_rqlite_request,
}
use nsqlite.Auth.Cache.{IsSound, NoCollision, check-IsSound, check-with_cache, check-resolve}
use nsqlite.Server.Serve.{Route, rpc, rqlite, HttpRequest, token_at, authorize}

-- The route is that of System.health.
abbrev pub IsHealth : Route → Type 0
IsHealth (rpc rpc_name operation_name) =
    is_call rpc_name operation_name (codes "System") (codes "health") ≡ true
IsHealth (rqlite mode) = ⊥

module _ (c : Crypto) (P : Text → Type 0) where
  -- A server's check is sound for the tokens and the salt of `a`.
  pub record IsGuard (a b : AuthState) : Type 0 where
    pub sound : IsSound c P b
    pub tokens : b.auth_tokens ≡ a.auth_tokens
    pub salt : b.auth_token_salt ≡ a.auth_token_salt

  check-IsGuard :
      (a b : AuthState) (t : Text) → P t → IsGuard a b → IsGuard a (check_auth_with_cache c b t).1
  check-IsGuard a b t p g = record {
    sound = check-IsSound c P b t p g.sound;
    tokens = ap (λ s. s.auth_tokens) (check-with_cache c P b t) ∙ g.tokens;
    salt = ap (λ s. s.auth_token_salt) (check-with_cache c P b t) ∙ g.salt;
  }

  check-scan :
      (b : AuthState) (t : Text) {role : AuthRole} {principal : Text}
      → P t
      → NoCollision c P b
      → IsSound c P b
      → (check_auth_with_cache c b t).0 ≡ some (role, principal)
      → scan c t b.auth_tokens ≡ some role
  check-scan b [] p inj a e = absurd (ground (arith, check-resolve c P b [] p inj a))
  check-scan b (x ∷ xs) p inj a e = elim (Option-cases (scan c (x ∷ xs) b.auth_tokens)) [
    | inl unknown ↦ absurd (ground (arith, check-resolve c P b (x ∷ xs) p inj a))
    | inr (r, known) ↦ ground (arith, check-resolve c P b (x ∷ xs) p inj a)
  ]

  authenticate-IsGuard :
      (a b : AuthState) (h : Text)
      → P (trim_prefix (trim_prefix h (codes "Bearer ")) (codes "bearer "))
      → IsGuard a b
      → IsGuard a (authenticate_request c b h).1
  unfolding authenticate_request
  authenticate-IsGuard a b h p g =
      let t = trim_prefix (trim_prefix h (codes "Bearer ")) (codes "bearer ") in
      ground (arith, check-IsGuard a b t p g)

  pub authorize-IsGuard :
      (a b : AuthState) (to : Route) (r : HttpRequest)
      → P (token_at to r)
      → IsGuard a b
      → IsGuard a (authorize c to r b).1
  unfolding authorize authorize_rpc_request authorize_rqlite_request token_at
  authorize-IsGuard a b (rpc n o) r p g =
      ground (arith, authenticate-IsGuard a b r.authorization p g)
  authorize-IsGuard a b (rqlite mode) r p g = elim (Option-cases r.basic) [
    | inl bearer ↦ ground (arith, authenticate-IsGuard a b r.authorization)
    | inr ((user, password), basic) ↦ ground (arith, check-IsGuard a b password)
  ]

  authenticate-scan :
      (b : AuthState) (h : Text) {role : AuthRole} {principal : Text}
      → P (trim_prefix (trim_prefix h (codes "Bearer ")) (codes "bearer "))
      → NoCollision c P b
      → IsSound c P b
      → auth_is_disabled b ≡ false
      → (authenticate_request c b h).0 ≡ some (role, principal)
      → scan c (trim_prefix (trim_prefix h (codes "Bearer ")) (codes "bearer ")) b.auth_tokens
        ≡ some role
  unfolding authenticate_request
  authenticate-scan b h {role} {principal} p inj a on e =
      let t = trim_prefix (trim_prefix h (codes "Bearer ")) (codes "bearer ") in
      check-scan b t {principal = principal} p inj a (ground arith)

  -- Who is granted presents a configured token, or calls System.health.
  pub authorize-scan :
      (b : AuthState) (to : Route) (r : HttpRequest) {props : RequestProps}
      → P (token_at to r)
      → NoCollision c P b
      → IsSound c P b
      → auth_is_disabled b ≡ false
      → (authorize c to r b).0 ≡ granted props
      → IsHealth to ⊎ (scan c (token_at to r) b.auth_tokens ≡ some props.role)
  unfolding authorize authorize_rpc_request authorize_rqlite_request token_at
  authorize-scan b (rpc n o) r {props} p inj a on e =
      elim (Bool-cases (is_call n o (codes "System") (codes "health"))) [
        | inl health ↦ inl health
        | inr other ↦ inr (
            authenticate-scan b r.authorization {principal = props.principal} p inj a on
              (ground arith))
      ]
  authorize-scan b (rqlite mode) r {props} p inj a on e = elim (Option-cases r.basic) [
    | inl bearer ↦ inr (
        rw bearer (
          authenticate-scan b r.authorization {principal = props.principal} (ground arith) inj a on
            (ground arith)))
    | inr ((user, password), basic) ↦ inr (
        rw basic
          (check-scan b password {principal = props.principal} (ground arith) inj a (ground arith)))
  ]
