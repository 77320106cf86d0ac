-- ===== src/Auth/Tests.antt =====
-- The theorems on tokens at concrete servers.
use nsqlite.Prelude.{
  ◌≡◌, refl, some, none, [], ◌∷◌, ◌++◌, map, List, Text, codes, text_eq, has_prefix,
}
use nsqlite.Auth.Tokens.{
  read_write, AuthToken, Crypto, get_hash_algo, tokens_of, new_auth_tokens, check_auth_token,
  bcrypt_check_hash,
}
use nsqlite.Auth.Check.{AuthState, scan}
use nsqlite.Auth.Scan.{scan-new_auth_tokens}
use nsqlite.Auth.Cache.{resolve, check_each, check_each-resolve}

-- A hash is the password behind a prefix, and a digest is the text itself.
abbrev crypto : Crypto
crypto = record {
  argon2id_compare = λ password hash. some (text_eq hash (codes "$argon2id$" ++ password));
  bcrypt_compare = λ hash password. text_eq hash (codes "$2a$" ++ password);
  sha256 = λ t. t;
}

abbrev tokens : List AuthToken
tokens = new_auth_tokens (codes "$2a$root" ∷ []) (codes "pen" ∷ []) (codes "eye" ∷ codes "pen" ∷ [])

abbrev server : AuthState
server = record { auth_tokens = tokens; auth_token_cache = []; auth_token_salt = codes "s" }

scan-new_auth_tokens_example : scan crypto (codes "pen") tokens ≡ some read_write
unfolding check_auth_token get_hash_algo bcrypt_check_hash text_eq has_prefix
scan-new_auth_tokens_example =
    scan-new_auth_tokens crypto (codes "pen") (codes "$2a$root" ∷ []) (codes "pen" ∷ [])
      (codes "eye" ∷ codes "pen" ∷ [])

-- The hash itself is no password.
hash_is_no_password : scan crypto (codes "$2a$root") tokens ≡ none
unfolding scan new_auth_tokens tokens_of check_auth_token get_hash_algo bcrypt_check_hash text_eq
    has_prefix
hash_is_no_password = refl

abbrev clients : List Text
clients = codes "eye" ∷ codes "nobody" ∷ codes "eye" ∷ []

drop_salt : (x y : Text) → codes "s" ++ x ≡ codes "s" ++ y → x ≡ y
drop_salt x y h = cc

check_each-resolve_example : check_each crypto server clients ≡ map (resolve crypto server) clients
check_each-resolve_example =
    check_each-resolve crypto (λ _. Unit {0}) server clients (tt, (tt, (tt, tt)))
      (λ x y _ _ h. drop_salt x y h) tt
