-- ===== src/Config/Access.antt =====
-- When the settings leave the server open.
use nsqlite.Prelude.{
  ℕ, ◌≡◌, refl, ap₂, ◌∙◌, ◌↔◌, Bool, true, false, ◌&&◌, List, [], ◌∷◌, ◌++◌, Text, is_empty,
  is_space, all, arith,
}
use nsqlite.Auth.Tokens.{
  AuthRole, AuthToken, tokens_of, new_auth_tokens, admin, read_write, read_only,
}
use nsqlite.Auth.Check.{AuthState, auth_is_disabled}
use nsqlite.Config.Settings.{
  Config, at_space, fields_from, split_auth_tokens, auth_tokens, read_write_auth_tokens,
  read_only_auth_tokens,
}

-- The authentication of a server with these settings (`run` of cmd/nsqlite, then `NewServer`), by
-- the salt that it draws.
abbrev pub auth_of : Text → Config → AuthState
auth_of salt c = record {
  auth_tokens =
      new_auth_tokens (auth_tokens c) (read_write_auth_tokens c) (read_only_auth_tokens c);
  auth_token_cache = [];
  auth_token_salt = salt;
}

at_space-blank :
    (b : Bool) (word : Text) (next longer : List Text) (rest : Bool)
    → is_empty next ≡ rest
    → is_empty longer ≡ false
    → is_empty (at_space b word next longer) ≡ (is_empty word && (b && rest))
at_space-blank true [] next longer rest e f = e
at_space-blank true (c ∷ word) next longer rest e f = refl
at_space-blank false [] next longer rest e f = f
at_space-blank false (c ∷ word) next longer rest e f = f

longer-blank : (word : Text) (c : ℕ) (b : Bool) → (is_empty (word ++ c ∷ []) && b) ≡ false
longer-blank [] c b = refl
longer-blank (w ∷ ws) c b = refl

fields-blank : (word s : Text) → is_empty (fields_from word s) ≡ (is_empty word && all is_space s)
unfolding fields_from
fields-blank [] [] = refl
fields-blank (w ∷ ws) [] = refl
fields-blank word (c ∷ s) =
    at_space-blank (is_space c) word _ _ (all is_space s) (fields-blank [] s)
      (fields-blank (word ++ c ∷ []) s ∙ longer-blank word c (all is_space s))

split-blank : (s : Text) → is_empty (split_auth_tokens s) ≡ all is_space s
unfolding split_auth_tokens
split-blank [] = refl
split-blank (c ∷ s) = fields-blank [] (c ∷ s)

is_empty-tokens_of : (role : AuthRole) (ts : List Text) → is_empty (tokens_of role ts) ≡ is_empty ts
unfolding tokens_of
is_empty-tokens_of role [] = refl
is_empty-tokens_of role (t ∷ ts) = refl

disabled-empty :
    (xs ys zs : List AuthToken)
    → is_empty (xs ++ (ys ++ zs)) ≡ (is_empty xs && (is_empty ys && is_empty zs))
disabled-empty [] [] zs = refl
disabled-empty [] (y ∷ ys) zs = refl
disabled-empty (x ∷ xs) ys zs = refl

blank :
    (role : AuthRole) (s : Text) → is_empty (tokens_of role (split_auth_tokens s)) ≡ all is_space s
blank role s = is_empty-tokens_of role (split_auth_tokens s) ∙ split-blank s

and_three :
    {a b c a' b' c' : Bool} → a ≡ a' → b ≡ b' → c ≡ c' → (a && (b && c)) ≡ (a' && (b' && c'))
and_three p q r = ap₂ ◌&&◌ p (ap₂ ◌&&◌ q r)

three_iff :
    (d a b c : Bool) → d ≡ (a && (b && c)) → (d ≡ true) ↔ ((a ≡ true) × (b ≡ true) × (c ≡ true))
three_iff d a b c e = ground arith

-- The server lets everyone in just if each of the three token settings is empty or nothing but
-- spaces.
pub auth_is_disabled_iff :
    (salt : Text) (c : Config)
    → (auth_is_disabled (auth_of salt c) ≡ true) ↔ (
        (all is_space c.auth_token ≡ true)
        × (all is_space c.auth_token_rw ≡ true)
        × (all is_space c.auth_token_ro ≡ true))
unfolding auth_is_disabled new_auth_tokens auth_tokens read_write_auth_tokens read_only_auth_tokens
auth_is_disabled_iff salt c = three_iff _ _ _ _ (
    disabled-empty (tokens_of admin (split_auth_tokens c.auth_token))
      (tokens_of read_write (split_auth_tokens c.auth_token_rw))
      (tokens_of read_only (split_auth_tokens c.auth_token_ro))
    ∙ and_three (blank admin c.auth_token) (blank read_write c.auth_token_rw)
        (blank read_only c.auth_token_ro))
