-- ===== src/Util/Numbers.antt =====
-- internal/util/numutil: `IntWithCommas`, of 64-bit patterns.
use nsqlite.Prelude.{
  ℕ, zero, suc, ◌+◌, ◌-◌, ◌*◌, ◌/◌, ◌%◌, ◌^◌, ◌<◌, ◌≤◌, ◌≡◌, refl, sym, ap, ap₂, ◌∙◌, true, false,
  [], ◌∷◌, ◌++◌, Option, none, some, Text, ltb, ◌==◌, arith, if◌then◌else◌, Bool-cases, inl, inr,
  ◌⊎◌, all,
}
use nsqlite.Config.Decimal.{digits, decimal, is_digit, all-decimal}
use nsqlite.Config.Durations.{is_nonneg, int_text}

-- `%03d`, of a number below 1000
abbrev pub three_digits : ℕ → Text
three_digits n = (48 + n / 100) ∷ (48 + n / 10 % 10) ∷ (48 + n % 10) ∷ []

abbrev pub append_group : ℕ → Option Text → Option Text
append_group n none = none
append_group n (some t) = some (t ++ 44 ∷ three_digits n)

abbrev pub negate : Option Text → Option Text
negate none = none
negate (some t) = some (45 ∷ t)

-- `IntWithCommas`, by the depth of its calls; `none` where it calls itself once more.
unfoldable pub int_with_commas : ℕ → ℕ → Option Text
unfolding decimal
int_with_commas zero i = none
int_with_commas (suc depth) i = elim (is_nonneg i) [
  | false ↦ negate (int_with_commas depth ((2 ^ 64 - i) % 2 ^ 64))
  | true ↦ elim (ltb i 1000) [
    | true ↦ some (decimal i)
    | false ↦ append_group (i % 1000) (int_with_commas depth (i / 1000))
  ]
]

-- A text without its commas.
unfoldable pub without_commas : Text → Text
without_commas [] = []
without_commas (c ∷ s) = let rest = without_commas s in if c == 44 then rest else c ∷ rest

without_commas-append :
    (s t : Text) → without_commas (s ++ t) ≡ without_commas s ++ without_commas t
unfolding without_commas
without_commas-append [] t = refl
without_commas-append (c ∷ s) t = ground (arith, without_commas-append s t)

without_commas-digits : (s : Text) → all is_digit s ≡ true → without_commas s ≡ s
unfolding without_commas
without_commas-digits [] h = refl
without_commas-digits (c ∷ s) h = ground (arith, without_commas-digits s)

digits-fuel : (f g n : ℕ) → n < f → n < g → digits f n ≡ digits g n
unfolding digits
digits-fuel zero g n h k = absurd (omega arith)
digits-fuel (suc f) zero n h k = absurd (omega arith)
digits-fuel (suc f) (suc g) n h k = ground (arith, digits-fuel f g (n / 10))

decimal-step : (n : ℕ) → 10 ≤ n → decimal n ≡ decimal (n / 10) ++ (48 + n % 10) ∷ []
unfolding decimal digits
decimal-step n h = ground (arith, digits-fuel n (suc (n / 10)) (n / 10))

append_assoc : (s t u : Text) → (s ++ t) ++ u ≡ s ++ (t ++ u)
append_assoc [] t u = refl
append_assoc (c ∷ s) t u = ap (λ r. c ∷ r) (append_assoc s t u)

decimal-steps :
    (n a b c : ℕ)
    → 1000 ≤ n
    → a ≡ n / 10
    → b ≡ n / 100
    → c ≡ n / 1000
    → decimal n ≡ decimal c ++ (48 + b % 10) ∷ (48 + a % 10) ∷ (48 + n % 10) ∷ []
decimal-steps n a b c h ea eb ec =
    let first : decimal n ≡ decimal a ++ (48 + n % 10) ∷ [] =
      decimal-step n (omega arith) ∙ ap (λ m. decimal m ++ (48 + n % 10) ∷ []) (sym ea) in
    let second : decimal a ≡ decimal b ++ (48 + a % 10) ∷ [] =
      decimal-step a (omega arith)
      ∙ ap (λ m. decimal m ++ (48 + a % 10) ∷ []) (omega (arith, ea, eb)) in
    let third : decimal b ≡ decimal c ++ (48 + b % 10) ∷ [] =
      decimal-step b (omega arith)
      ∙ ap (λ m. decimal m ++ (48 + b % 10) ∷ []) (omega (arith, eb, ec)) in
    first
    ∙ (ap (λ t. t ++ (48 + n % 10) ∷ [])
          (second
            ∙ (ap (λ t. t ++ (48 + a % 10) ∷ []) third
                ∙ append_assoc (decimal c) ((48 + b % 10) ∷ []) ((48 + a % 10) ∷ [])))
        ∙ append_assoc (decimal c) ((48 + b % 10) ∷ (48 + a % 10) ∷ []) ((48 + n % 10) ∷ []))

three : (a b c x y z : ℕ) → a ≡ x → b ≡ y → c ≡ z → ◌≡◌ {A = Text} (a ∷ b ∷ c ∷ []) (x ∷ y ∷ z ∷ [])
three a b c x y z p q r = ap₂ ◌∷◌ p (ap₂ ◌∷◌ q (ap (λ k. k ∷ []) r))

decimal-group : (n : ℕ) → 1000 ≤ n → decimal n ≡ decimal (n / 1000) ++ three_digits (n % 1000)
decimal-group n h =
    decimal-steps n (n / 10) (n / 100) (n / 1000) h refl refl refl
    ∙ ap (λ t. decimal (n / 1000) ++ t)
        (three _ _ _ _ _ _ (omega arith) (omega arith) (omega arith))

-- 1000 ^ depth
abbrev limit : ℕ → ℕ
limit zero = 1
limit (suc depth) = 1000 * limit depth

three_digits-digits : (n : ℕ) → n < 1000 → all is_digit (three_digits n) ≡ true
three_digits-digits n h = ground arith

without-group :
    (n : ℕ) (t : Text)
    → 1000 ≤ n
    → without_commas t ≡ decimal (n / 1000)
    → without_commas (t ++ 44 ∷ three_digits (n % 1000)) ≡ decimal n
unfolding without_commas
without-group n t h e =
    without_commas-append t (44 ∷ three_digits (n % 1000))
    ∙ (ap₂ ◌++◌ e (
          without_commas-digits (three_digits (n % 1000))
            (three_digits-digits (n % 1000) (omega arith)))
        ∙ sym (decimal-group n h))

-- A number that is not negative ends with its groups.
commas-ends :
    (depth i : ℕ)
    → i < 1000 * limit depth
    → i < 2 ^ 63
    → (t : Text) × (int_with_commas (suc depth) i ≡ some t) × (without_commas t ≡ decimal i)
unfolding int_with_commas
commas-ends zero i h k =
    (decimal i, ground arith, without_commas-digits (decimal i) (all-decimal i))
commas-ends (suc d) i h k = elim (Bool-cases (ltb i 1000)) [
  | inl small ↦ (decimal i, ground arith, without_commas-digits (decimal i) (all-decimal i))
  | inr large ↦
      let (t, ends, same) = commas-ends d (i / 1000) (omega (arith, h)) (omega (arith, k)) in
      (
        t ++ 44 ∷ three_digits (i % 1000),
        ground (arith, ends),
        without-group i t (ground arith) same,
      )
]

-- The smallest integer is its own negation.
min_int64-none : (depth : ℕ) → int_with_commas depth (2 ^ 63) ≡ none
unfolding int_with_commas
min_int64-none zero = refl
min_int64-none (suc depth) = ap negate (min_int64-none depth)

int_text-nonneg : (n : ℕ) → is_nonneg n ≡ true → int_text n ≡ decimal n
unfolding int_text
int_text-nonneg n h = rw h refl

int_text-neg : (n : ℕ) → is_nonneg n ≡ false → int_text n ≡ 45 ∷ decimal (2 ^ 64 - n)
unfolding int_text
int_text-neg n h = rw h refl

without-minus : (t : Text) → without_commas (45 ∷ t) ≡ 45 ∷ without_commas t
unfolding without_commas
without-minus t = refl

negative-ends :
    (depth n : ℕ) (t : Text)
    → is_nonneg n ≡ false
    → int_with_commas depth ((2 ^ 64 - n) % 2 ^ 64) ≡ some t
    → int_with_commas (suc depth) n ≡ some (45 ∷ t)
unfolding int_with_commas
negative-ends depth n t neg ends = ground (arith, ends)

-- `IntWithCommas` of a 64-bit integer ends within eight calls, with a text that is the plain
-- decimal one once its commas are taken out; but of the smallest one it ends at no depth.
pub int_with_commas-ends :
    (n : ℕ)
    → n < 2 ^ 64
    → ((t : Text) × (int_with_commas 8 n ≡ some t) × (without_commas t ≡ int_text n))
      ⊎ ((n ≡ 2 ^ 63) × ((depth : ℕ) → int_with_commas depth n ≡ none))
int_with_commas-ends n h = elim (Bool-cases (is_nonneg n)) [
  | inl nonneg ↦
      let (t, ends, same) = commas-ends 7 n (omega arith) (ground arith) in
      inl (t, ends, same ∙ sym (int_text-nonneg n nonneg))
  | inr neg ↦ elim (Bool-cases (n == 2 ^ 63)) [
    | inl smallest ↦
        let e : n ≡ 2 ^ 63 = ground arith in
        inr (e, λ depth. ap (int_with_commas depth) e ∙ min_int64-none depth)
    | inr other ↦
        let m = 2 ^ 64 - n in
        let (t, ends, same) = commas-ends 6 m (ground arith) (ground arith) in
        inl (
          45 ∷ t,
          negative-ends 7 n t neg (ap (int_with_commas 7) (ground arith) ∙ ends),
          without-minus t ∙ (ap (λ u. 45 ∷ u) same ∙ sym (int_text-neg n neg)),
        )
  ]
]
