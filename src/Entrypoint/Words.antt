-- ===== src/Entrypoint/Words.antt =====
-- How a POSIX shell splits a command into words, and that it reads `shellJoin` back.
use nsqlite.Prelude.{
  ℕ, ◌≡◌, refl, ap, Bool, false, ◌||◌, List, [], ◌∷◌, ◌++◌, map, Option, none, some, Text, any,
  ◌==◌, if◌then◌else◌, arith, Bool-cases, inl, inr,
}
use nsqlite.Entrypoint.Shell.{is_special, escape_quotes, shell_quote, join_rest, shell_join}

-- Between words, in a word, within single quotes, and after a backslash.
pub data Mode : Type 0 where
  between word quoted escaped : Mode

pub data Act : Type 0 where
  skip keep end reject : Act

-- The other characters with a meaning for the shell; a word that uses one is not read here.
abbrev pub is_operator : ℕ → Bool
is_operator c =
    any (λ d. c == d)
      (10 ∷ 34 ∷ 36 ∷ 96 ∷ 33 ∷ 35 ∷ 38 ∷ 40 ∷ 41 ∷ 42 ∷ 59 ∷ 60 ∷ 62 ∷ 63 ∷ 91 ∷ 93 ∷ 123 ∷ 125
        ∷ 124 ∷ 126 ∷ [])

abbrev pub unquoted : Mode → Act → ℕ → Mode × Act
unquoted m blank c =
    if c == 32 || c == 9
    then (between, blank)
    else if c == 39
    then (quoted, skip)
    else if c == 92
    then (escaped, skip)
    else if is_operator c
    then (m, reject)
    else (word, keep)

unfoldable pub next : Mode → ℕ → Mode × Act
next between c = unquoted between skip c
next word c = unquoted word end c
next quoted c = if c == 39 then (word, skip) else (quoted, keep)
next escaped c = (word, keep)

-- The words from here on; the first one is the rest of the current word, if there is one.
abbrev pub act : Act → ℕ → Option (List Text) → Option (List Text)
act skip c r = r
act keep c (some (w ∷ ws)) = some ((c ∷ w) ∷ ws)
act end c (some ws) = some ([] ∷ ws)
act _ c r = none

unfoldable pub shell_words_from : Mode → Text → Option (List Text)
shell_words_from between [] = some []
shell_words_from word [] = some ([] ∷ [])
shell_words_from m [] = none
shell_words_from m (c ∷ s) = act (next m c).1 c (shell_words_from (next m c).0 s)

abbrev pub shell_words : Text → Option (List Text)
shell_words s = shell_words_from between s

next-plain :
    (c : ℕ) → is_special c ≡ false → (next between c ≡ (word, keep)) × (next word c ≡ (word, keep))
unfolding next is_special
next-plain c h = ground arith

words-plain :
    (v s w : Text) (ws : List Text)
    → any is_special v ≡ false
    → shell_words_from word s ≡ some (w ∷ ws)
    → shell_words_from word (v ++ s) ≡ some ((v ++ w) ∷ ws)
unfolding shell_words_from
words-plain [] s w ws p h = h
words-plain (c ∷ v) s w ws p h = ground (arith, words-plain v s w ws, next-plain c)

words-quoted :
    (v s w : Text) (ws : List Text)
    → shell_words_from word s ≡ some (w ∷ ws)
    → shell_words_from quoted ((escape_quotes v ++ 39 ∷ []) ++ s) ≡ some ((v ++ w) ∷ ws)
unfolding shell_words_from escape_quotes next
words-quoted [] s w ws h = h
words-quoted (c ∷ v) s w ws h = ground (arith, words-quoted v s w ws h)

words-shell_quote :
    (v s w : Text) (ws : List Text)
    → shell_words_from word s ≡ some (w ∷ ws)
    → shell_words_from between (shell_quote v ++ s) ≡ some ((v ++ w) ∷ ws)
unfolding shell_quote shell_words_from next
words-shell_quote [] s w ws h = ground (arith, words-quoted [] s w ws h)
words-shell_quote (c ∷ v) s w ws h = elim (Bool-cases (any is_special (c ∷ v))) [
  | inl special ↦ ground (arith, words-quoted (c ∷ v) s w ws h)
  | inr plain ↦ ground (arith, words-plain v s w ws, next-plain c)
]

append_nil : (s : Text) → s ++ [] ≡ s
append_nil [] = refl
append_nil (c ∷ s) = ap (◌∷◌ c) (append_nil s)

words-join_rest :
    (args : List Text) → shell_words_from word (join_rest (map shell_quote args)) ≡ some ([] ∷ args)
unfolding shell_words_from next
words-join_rest [] = refl
words-join_rest (v ∷ args) = ground (
  arith,
  words-shell_quote v (join_rest (map shell_quote args)) [] args (words-join_rest args),
  append_nil v,
)

-- A POSIX shell splits what `shellJoin` makes of some arguments into just these arguments, whatever
-- characters they hold, the empty argument included.
pub shell_words-shell_join : (args : List Text) → shell_words (shell_join args) ≡ some args
unfolding shell_join shell_words_from
shell_words-shell_join [] = refl
shell_words-shell_join (v ∷ args) = ground (
  arith,
  words-shell_quote v (join_rest (map shell_quote args)) [] args (words-join_rest args),
  append_nil v,
)
