-- ===== src/Auth/Check.antt =====
-- internal/server/auth.go: the check of a client's token, with its cache.
use nsqlite.Prelude.{
  ℕ, Bool, List, [], ◌∷◌, ◌++◌, Option, none, some, Text, codes, text_eq, trim_prefix, is_empty,
  if◌then◌else◌,
}
use nsqlite.Auth.Tokens.{AuthRole, admin, AuthToken, Crypto, check_auth_token, hex}

-- What the checks keep in `Server`: the tokens and the salt are fixed, the cache grows.
pub record AuthState : Type 0 where
  pub auth_tokens : List AuthToken
  pub auth_token_cache : List (List ℕ × AuthRole)
  pub auth_token_salt : Text

unfoldable pub auth_is_disabled : AuthState → Bool
auth_is_disabled s = is_empty s.auth_tokens

-- `sync.Map`, by its entries
unfoldable pub cache_load : List ℕ → List (List ℕ × AuthRole) → Option AuthRole
cache_load h [] = none
cache_load h ((k, role) ∷ m) = if text_eq k h then some role else cache_load h m

unfoldable pub cache_store : List ℕ → AuthRole → List (List ℕ × AuthRole) → List (List ℕ × AuthRole)
cache_store h role [] = (h, role) ∷ []
cache_store h role ((k, old) ∷ m) =
    if text_eq k h then (k, role) ∷ m else (k, old) ∷ cache_store h role m

module _ (c : Crypto) where
  -- the loop over the configured tokens
  unfoldable pub scan : Text → List AuthToken → Option AuthRole
  unfolding check_auth_token
  scan client_token [] = none
  scan client_token (token ∷ ts) =
      if check_auth_token c token.algo client_token token.value
      then some token.role
      else scan client_token ts

  abbrev pub hash_of : AuthState → Text → List ℕ
  hash_of s client_token = c.sha256 (s.auth_token_salt ++ client_token)

  -- After a cache miss.
  unfoldable pub check_tokens : AuthState → Text → Option (AuthRole × Text) × AuthState
  unfolding scan cache_store hex
  check_tokens s client_token = elim (scan client_token s.auth_tokens) [
    | none ↦ (none, s)
    | some role ↦ (
      some (role, hex (hash_of s client_token)),
      record s { auth_token_cache = cache_store (hash_of s client_token) role s.auth_token_cache },
    )
  ]

  -- The result is the role and the principal; `none` is `false`.
  unfoldable pub check_auth_with_cache : AuthState → Text → Option (AuthRole × Text) × AuthState
  unfolding check_tokens cache_load hex
  check_auth_with_cache s [] = (none, s)
  check_auth_with_cache s (t ∷ ts) = elim (cache_load (hash_of s (t ∷ ts)) s.auth_token_cache) [
    | some role ↦ (some (role, hex (hash_of s (t ∷ ts))), s)
    | none ↦ check_tokens s (t ∷ ts)
  ]

  -- `authenticateRequest`, by the Authorization header; `none` is the error 401.
  unfoldable pub authenticate_request : AuthState → Text → Option (AuthRole × Text) × AuthState
  unfolding auth_is_disabled check_auth_with_cache trim_prefix
  authenticate_request s authorization =
      let token = trim_prefix (trim_prefix authorization (codes "Bearer ")) (codes "bearer ") in
      if auth_is_disabled s
      then (some (admin, []), s)
      else if is_empty token
      then (none, s)
      else check_auth_with_cache s token
