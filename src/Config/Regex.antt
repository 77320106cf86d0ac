-- ===== src/Config/Regex.antt =====
-- What internal/validate uses of package regexp: classes of characters, sequences, alternatives,
-- bounded repetitions and the end of the text, of expressions that begin with `^`.
use nsqlite.Prelude.{
  ℕ, zero, suc, ◌≡◌, refl, ◌↔◌, inl, inr, Bool, true, false, ◌&&◌, ◌||◌, [], ◌∷◌, Text, is_empty,
  arith, Bool-cases,
}

pub data Regex : Type 0 where
  one : (ℕ → Bool) → Regex
  both : Regex → Regex → Regex
  either : Regex → Regex → Regex
  nothing : Regex
  end_of_text : Regex

-- `r{n}` and `r{0,n}`
abbrev pub times : ℕ → Regex → Regex
times zero r = nothing
times (suc n) r = both r (times n r)

abbrev pub up_to : ℕ → Regex → Regex
up_to zero r = nothing
up_to (suc n) r = either (both r (up_to n r)) nothing

-- The search: `k` is asked of what is left.
unfoldable pub accepts : Regex → Text → (Text → Bool) → Bool
accepts (one p) [] k = false
accepts (one p) (c ∷ s) k = p c && k s
accepts (both r q) s k = accepts r s (λ t. accepts q t k)
accepts (either r q) s k = accepts r s k || accepts q s k
accepts nothing s k = k s
accepts end_of_text s k = is_empty s && k s

-- `MatchString`, of an expression that begins with `^`
unfoldable pub match_string : Regex → Text → Bool
unfolding accepts
match_string r s = accepts r s (λ _. true)

-- What an expression means: it leads from a text to what is left of it.
pub data Matches : Regex → Text → Text → Type 0 where
  char : {p : ℕ → Bool} {c : ℕ} {s : Text} → p c ≡ true → Matches (one p) (c ∷ s) s
  in_turn : {r q : Regex} {s t u : Text} → Matches r s t → Matches q t u → Matches (both r q) s u
  first : {r q : Regex} {s t : Text} → Matches r s t → Matches (either r q) s t
  second : {r q : Regex} {s t : Text} → Matches q s t → Matches (either r q) s t
  empty : {s : Text} → Matches nothing s s
  at_end : Matches end_of_text [] []

accepts-Matches :
    (r : Regex) (s : Text) (k : Text → Bool)
    → accepts r s k ≡ true
    → (t : Text) × Matches r s t × (k t ≡ true)
unfolding accepts
accepts-Matches (one p) [] k h = absurd (ground arith)
accepts-Matches (one p) (c ∷ s) k h = (s, char (ground arith), ground arith)
accepts-Matches (both r q) s k h =
    let (t, m, h') = accepts-Matches r s (λ t. accepts q t k) h in
    let (u, n, h'') = accepts-Matches q t k h' in (u, in_turn m n, h'')
accepts-Matches (either r q) s k h = elim (Bool-cases (accepts r s k)) [
  | inl yes_first ↦ let (t, m, e) = accepts-Matches r s k yes_first in (t, first m, e)
  | inr no_first ↦ let (t, m, e) = accepts-Matches q s k (ground arith) in (t, second m, e)
]
accepts-Matches nothing s k h = (s, empty, h)
accepts-Matches end_of_text [] k h = ([], at_end, h)
accepts-Matches end_of_text (c ∷ s) k h = absurd (ground arith)

Matches-accepts :
    {r : Regex} {s t : Text} (k : Text → Bool) → Matches r s t → k t ≡ true → accepts r s k ≡ true
unfolding accepts
Matches-accepts k (char e) h = ground arith
Matches-accepts k (in_turn {q} {t} m n) h =
    Matches-accepts (λ t. accepts q t k) m (Matches-accepts k n h)
Matches-accepts k (first m) h = ground (arith, Matches-accepts k m h)
Matches-accepts k (second {r} {s} m) h = ground (arith, Matches-accepts k m h)
Matches-accepts k empty h = h
Matches-accepts k at_end h = h

pub match_string_iff :
    (r : Regex) (s : Text) → (match_string r s ≡ true) ↔ ((t : Text) × Matches r s t)
unfolding match_string
match_string_iff r s = (
  λ h. let (t, m, e) = accepts-Matches r s (λ _. true) h in (t, m),
  λ (t, m). Matches-accepts (λ _. true) m refl,
)
