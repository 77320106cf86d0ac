-- ===== src/Auth/Scan.antt =====
-- Which role a client's token gets from the configured lists.
use nsqlite.Prelude.{
  ◌≡◌, refl, Bool, List, [], ◌∷◌, ◌++◌, Option, none, some, arith, Text, any, if◌then◌else◌,
}
use nsqlite.Auth.Tokens.{
  AuthRole, admin, read_write, read_only, AuthToken, Crypto, get_hash_algo, check_auth_token,
  tokens_of, new_auth_tokens,
}
use nsqlite.Auth.Check.{scan}

-- A client's token against one configured token, with the algorithm that its form shows.
abbrev pub matches : Crypto → Text → Text → Bool
matches c client_token token = check_auth_token c (get_hash_algo token) client_token token

abbrev or_else : Option AuthRole → Option AuthRole → Option AuthRole
or_else none other = other
or_else (some role) other = some role

module _ (c : Crypto) (t : Text) where
  scan-append : (xs ys : List AuthToken) → scan c t (xs ++ ys) ≡ or_else (scan c t xs) (scan c t ys)
  unfolding scan
  scan-append [] ys = refl
  scan-append (x ∷ xs) ys = ground (arith, scan-append xs ys)

  scan-tokens_of :
      (role : AuthRole) (ts : List Text)
      → scan c t (tokens_of role ts) ≡ (if any (matches c t) ts then some role else none)
  unfolding scan tokens_of
  scan-tokens_of role [] = refl
  scan-tokens_of role (x ∷ xs) = ground (arith, scan-tokens_of role xs)

  -- The role that the configured tokens give is that of the first list, in the order admin,
  -- read-write, read-only, that has a token which the client's token matches; without one there is
  -- no role.
  pub scan-new_auth_tokens :
      (admins read_writes read_onlys : List Text)
      → scan c t (new_auth_tokens admins read_writes read_onlys) ≡ (
          if any (matches c t) admins
          then some admin
          else if any (matches c t) read_writes
          then some read_write
          else if any (matches c t) read_onlys
          then some read_only
          else none)
  unfolding new_auth_tokens
  scan-new_auth_tokens a w r = ground (
    arith,
    scan-append (tokens_of admin a) (tokens_of read_write w ++ tokens_of read_only r),
    scan-append (tokens_of read_write w) (tokens_of read_only r),
    scan-tokens_of admin a,
    scan-tokens_of read_write w,
    scan-tokens_of read_only r,
  )
