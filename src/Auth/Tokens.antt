-- ===== src/Auth/Tokens.antt =====
-- The configured tokens (internal/server/auth.go) and how their hashes are told apart
-- (internal/util/cryptoutil).
use nsqlite.Prelude.{
  ℕ, ◌+◌, ◌-◌, ◌/◌, ◌%◌, Bool, false, ◌||◌, List, [], ◌∷◌, ◌++◌, Option, none, some, Text, codes,
  text_eq, has_prefix, ltb, if◌then◌else◌,
}

-- `authRole`; the empty role that goes with an error is `none` in the results below.
pub data AuthRole : Type 0 where
  admin read_write read_only : AuthRole

pub data HashAlgo : Type 0 where
  plaintext argon2id bcrypt : HashAlgo

unfoldable pub get_hash_algo : Text → HashAlgo
unfolding has_prefix
get_hash_algo token =
    if has_prefix token (codes "$argon2id$")
    then argon2id
    else if has_prefix token (codes "$2a$")
        || has_prefix token (codes "$2b$")
        || has_prefix token (codes "$2y$")
    then bcrypt
    else plaintext

pub record AuthToken : Type 0 where
  pub role : AuthRole
  pub algo : HashAlgo
  pub value : Text

-- The three loops of `newAuthTokens` have one body.
unfoldable pub tokens_of : AuthRole → List Text → List AuthToken
unfolding get_hash_algo
tokens_of role [] = []
tokens_of role (token ∷ ts) =
    record { role = role; algo = get_hash_algo token; value = token } ∷ tokens_of role ts

unfoldable pub new_auth_tokens : List Text → List Text → List Text → List AuthToken
unfolding tokens_of
new_auth_tokens admin_tokens read_write_tokens read_only_tokens =
    tokens_of admin admin_tokens
    ++ (tokens_of read_write read_write_tokens ++ tokens_of read_only read_only_tokens)

-- The hash functions, which are not of this repository. A comparison that fails is no match.
pub record Crypto : Type 0 where
  -- argon2id.ComparePasswordAndHash, by password and hash; `none` is its error
  pub argon2id_compare : Text → Text → Option Bool
  -- bcrypt.CompareHashAndPassword, by hash and password, reports no error
  pub bcrypt_compare : Text → Text → Bool
  -- sha256.Sum256 of a text, as 32 bytes
  pub sha256 : Text → List ℕ

module _ (c : Crypto) where
  unfoldable pub argon2id_check_hash : Text → Text → Bool
  argon2id_check_hash password hash = elim (c.argon2id_compare password hash) [
    | none ↦ false
    | some match ↦ match
  ]

  unfoldable pub bcrypt_check_hash : Text → Text → Bool
  bcrypt_check_hash password hash = c.bcrypt_compare hash password

  unfoldable pub check_auth_token : HashAlgo → Text → Text → Bool
  unfolding argon2id_check_hash bcrypt_check_hash
  check_auth_token plaintext client_token server_token = text_eq client_token server_token
  check_auth_token argon2id client_token server_token =
      argon2id_check_hash client_token server_token
  check_auth_token bcrypt client_token server_token = bcrypt_check_hash client_token server_token

-- `%x`
abbrev pub hex_digit : ℕ → ℕ
hex_digit n = if ltb n 10 then b'0' + n else b'a' + (n - 10)

unfoldable pub hex : List ℕ → Text
hex [] = []
hex (b ∷ bs) = hex_digit (b / 16) ∷ hex_digit (b % 16) ∷ hex bs
