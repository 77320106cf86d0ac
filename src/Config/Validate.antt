-- ===== src/Config/Validate.antt =====
-- internal/validate: ports, hosts to listen on and content types.
use nsqlite.Prelude.{
  ℕ, ◌≡◌, ◌≤◌, ◌↔◌, Bool, true, false, ◌||◌, List, [], ◌∷◌, Text, text_eq, ltb, ◌==◌, all, length,
  arith, if◌then◌else◌, Option, none, some, is_empty,
}
use nsqlite.Config.Regex.{
  Regex, one, both, either, end_of_text, times, up_to, match_string, accepts,
}
use nsqlite.Config.Decimal.{is_digit, value, value_from}

-- `^\d{1,5}$`
abbrev pub port_re : Regex
port_re = both (both (one is_digit) (up_to 4 (one is_digit))) end_of_text

-- `^([0-9]{1,3}\.){3}[0-9]{1,3}($|/[0-9]{2})$`
abbrev pub listen_host_re : Regex
listen_host_re =
    let group = both (one is_digit) (up_to 2 (one is_digit)) in
    both (times 3 (both group (one (λ c. c == 46)))) (
      both group (
        both (either end_of_text (both (one (λ c. c == 47)) (times 2 (one is_digit)))) end_of_text))

-- `strconv.Atoi`, of a text without a sign and of fewer than 19 digits
unfoldable pub atoi : Text → Option ℕ
unfolding value_from
atoi s = if is_empty s then none else if all is_digit s then some (value s) else none

-- `Port`
unfoldable pub port : Text → Bool
unfolding match_string atoi
port s =
    if match_string port_re s
    then (elim (atoi s) [ none ↦ false | some n ↦ if ltb n 1 || ltb 65535 n then false else true ])
    else false

-- `ListenHost`
unfoldable pub listen_host : Text → Bool
unfolding match_string
listen_host addr = match_string listen_host_re addr

-- `ContentType`
unfoldable pub content_type : Text → List Text → Bool
content_type target [] = false
content_type target (allowed ∷ rest) =
    if text_eq target allowed then true else content_type target rest

short_digits :
    (s : Text)
    → (match_string port_re s ≡ true) ↔ ((all is_digit s ≡ true) × (1 ≤ length s) × (length s ≤ 5))
unfolding match_string accepts
short_digits [] = ground arith
short_digits (a ∷ []) = ground arith
short_digits (a ∷ b ∷ []) = ground arith
short_digits (a ∷ b ∷ c ∷ []) = ground arith
short_digits (a ∷ b ∷ c ∷ d ∷ []) = ground arith
short_digits (a ∷ b ∷ c ∷ d ∷ e ∷ []) = ground arith
short_digits (a ∷ b ∷ c ∷ d ∷ e ∷ f ∷ s) = ground arith

pub port_iff :
    (s : Text)
    → (port s ≡ true) ↔ (
        (all is_digit s ≡ true)
        × (1 ≤ length s)
        × (length s ≤ 5)
        × (1 ≤ value s)
        × (value s ≤ 65535))
unfolding port atoi
port_iff s = ground (arith, short_digits s)
