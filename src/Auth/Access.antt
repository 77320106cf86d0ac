-- ===== src/Auth/Access.antt =====
-- Who gets past the authorization of a request.
use nsqlite.Prelude.{
  ◌≡◌, refl, inl, inr, true, false, [], ◌∷◌, Option, none, some, arith, Text, codes, text_eq,
  text_eq_iff, Option-cases, trim_prefix,
}
use nsqlite.Auth.Tokens.{AuthRole, admin, Crypto}
use nsqlite.Auth.Cache.{IsSound, load-Entry}
use nsqlite.Auth.Check.{
  cache_load, hash_of, check_tokens, AuthState, auth_is_disabled, check_auth_with_cache,
  authenticate_request, scan,
}
use nsqlite.Auth.Requests.{
  unauthorized, RequestProps, granted, refused, is_call, authorize_rpc_request,
  authorize_rqlite_request,
}

is_call-status :
    (rpc_name operation_name : Text)
    → is_call rpc_name operation_name (codes "System") (codes "status") ≡ true
    → is_call rpc_name operation_name (codes "System") (codes "health") ≡ false
unfolding text_eq
is_call-status r o h =
    let e : o ≡ codes "status" = (text_eq_iff o (codes "status")).0 (ground arith) in
    rw e (ground arith)

module _ (c : Crypto) where
  -- An answer that grants System.status is to an administrator.
  pub status-admin :
      (s : AuthState) (authorization rpc_name operation_name : Text) {props : RequestProps}
      → is_call rpc_name operation_name (codes "System") (codes "status") ≡ true
      → (authorize_rpc_request c s authorization rpc_name operation_name).0 ≡ granted props
      → props.role ≡ admin
  unfolding authorize_rpc_request
  status-admin s a r o k e = ground (arith, is_call-status r o)

  abbrev pub HasToken : AuthState → AuthRole → Type 0
  HasToken s role = (t : Text) × (scan c t s.auth_tokens ≡ some role)

  -- Every cached role is that of some token.
  abbrev pub IsSoundCache : AuthState → Type 0
  IsSoundCache = IsSound c (λ _. Unit {0})

  check-HasToken :
      (s : AuthState) (t : Text) {role : AuthRole} {principal : Text}
      → IsSoundCache s
      → (check_auth_with_cache c s t).0 ≡ some (role, principal)
      → HasToken s role
  unfolding check_auth_with_cache check_tokens
  check-HasToken s [] a e = absurd (cc)
  check-HasToken s (x ∷ xs) {role} a e =
      elim (Option-cases (cache_load (hash_of c s (x ∷ xs)) s.auth_token_cache)) [
        | inr (r, hit) ↦
            let (t, _, _, v) =
              load-Entry c (λ _. Unit {0}) s _ {role = r} s.auth_token_cache a hit in
            (t, ground arith)
        | inl miss ↦ (x ∷ xs, ground arith)
      ]

  authenticate-HasToken :
      (s : AuthState) (authorization : Text) {role : AuthRole} {principal : Text}
      → IsSoundCache s
      → auth_is_disabled s ≡ false
      → (authenticate_request c s authorization).0 ≡ some (role, principal)
      → HasToken s role
  unfolding authenticate_request
  authenticate-HasToken s h {role} {principal} a on e =
      let token = trim_prefix (trim_prefix h (codes "Bearer ")) (codes "bearer ") in
      check-HasToken s token {principal = principal} a (ground arith)

  -- With tokens configured and a cache that holds only roles of configured tokens, the role that an
  -- RPC other than System.health is granted is that of some token.
  pub rpc-HasToken :
      (s : AuthState) (authorization rpc_name operation_name : Text) {props : RequestProps}
      → IsSoundCache s
      → auth_is_disabled s ≡ false
      → is_call rpc_name operation_name (codes "System") (codes "health") ≡ false
      → (authorize_rpc_request c s authorization rpc_name operation_name).0 ≡ granted props
      → HasToken s props.role
  unfolding authorize_rpc_request
  rpc-HasToken s h r o {props} a on k e =
      authenticate-HasToken s h {principal = props.principal} a on (ground arith)

  -- With tokens configured and a cache that holds only roles of configured tokens, the role that a
  -- request to the endpoints under /db is granted, by a password or by a bearer token, is that of
  -- some token.
  pub rqlite-HasToken :
      (s : AuthState) (authorization : Text) (basic : Option (Text × Text)) {props : RequestProps}
      → IsSoundCache s
      → auth_is_disabled s ≡ false
      → (authorize_rqlite_request c s authorization basic).0 ≡ granted props
      → HasToken s props.role
  unfolding authorize_rqlite_request
  rqlite-HasToken s h none {props} a on e =
      authenticate-HasToken s h {principal = props.principal} a on (ground arith)
  rqlite-HasToken s h (some (user, password)) {props} a on e =
      check-HasToken s password {principal = props.principal} a (ground arith)

  check_none :
      (s : AuthState) (t : Text)
      → (check_auth_with_cache c s t).0 ≡ none
      → (check_auth_with_cache c s t).1 ≡ s
  unfolding check_auth_with_cache check_tokens
  check_none s [] e = refl
  check_none s (x ∷ xs) e = ground arith

  -- An RPC that is answered 401 leaves the tokens and the cache as they were.
  pub unauthorized_unchanged :
      (s : AuthState) (authorization rpc_name operation_name : Text)
      → (authorize_rpc_request c s authorization rpc_name operation_name).0 ≡ refused unauthorized
      → (authorize_rpc_request c s authorization rpc_name operation_name).1 ≡ s
  unfolding authorize_rpc_request authenticate_request
  unauthorized_unchanged s h r o e =
      ground (arith, check_none s (trim_prefix (trim_prefix h (codes "Bearer ")) (codes "bearer ")))
