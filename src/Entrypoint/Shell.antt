-- ===== src/Entrypoint/Shell.antt =====
-- cmd/entrypoint/main.go: `shellJoin` and `shellQuote`.
use nsqlite.Prelude.{
  ℕ, Bool, not, ◌&&◌, List, [], ◌∷◌, ◌++◌, map, Text, any, is_empty, ◌==◌, if◌then◌else◌,
}

-- The characters of the literal of `shellQuote`: blanks, line ends, quotes and operators.
abbrev pub special_characters : List ℕ
special_characters =
    32 ∷ 9 ∷ 10 ∷ 13 ∷ 39 ∷ 34 ∷ 92 ∷ 36 ∷ 96 ∷ 33 ∷ 35 ∷ 38 ∷ 40 ∷ 41 ∷ 42 ∷ 59 ∷ 60 ∷ 62 ∷ 63 ∷ 91
    ∷ 93 ∷ 123 ∷ 125 ∷ 124 ∷ 126 ∷ []

unfoldable pub is_special : ℕ → Bool
is_special c = any (λ d. c == d) special_characters

-- strings.ReplaceAll(value, "'", `'\''`)
unfoldable pub escape_quotes : Text → Text
escape_quotes [] = []
escape_quotes (c ∷ s) =
    let rest = escape_quotes s in if c == 39 then 39 ∷ 92 ∷ 39 ∷ 39 ∷ rest else c ∷ rest

unfoldable pub shell_quote : Text → Text
shell_quote value =
    if not (is_empty value) && not (any is_special value)
    then value
    else 39 ∷ escape_quotes value ++ 39 ∷ []

-- strings.Join with a blank
abbrev pub join_rest : List Text → Text
join_rest [] = []
join_rest (s ∷ ss) = 32 ∷ s ++ join_rest ss

abbrev pub join : List Text → Text
join [] = []
join (s ∷ ss) = s ++ join_rest ss

unfoldable pub shell_join : List Text → Text
shell_join args = join (map shell_quote args)
