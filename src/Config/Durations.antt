-- ===== src/Config/Durations.antt =====
-- `%d` of an int and `Duration.String`, of 64-bit patterns.
use nsqlite.Prelude.{
  ℕ, zero, suc, ◌+◌, ◌-◌, ◌/◌, ◌%◌, ◌^◌, ◌≡◌, refl, Bool, false, not, ◌||◌, ◌∷◌, ◌++◌, Text, codes,
  ltb, ◌==◌, if◌then◌else◌, ◌&&◌,
}
use nsqlite.Config.Decimal.{decimal, digits}

-- The integer is not negative.
abbrev pub is_nonneg : ℕ → Bool
is_nonneg n = ltb n (2 ^ 63)

-- `n > 0`
abbrev pub is_positive : ℕ → Bool
is_positive n = ltb 0 n && ltb n (2 ^ 63)

unfoldable pub int_text : ℕ → Text
unfolding decimal
int_text n = if is_nonneg n then decimal n else 45 ∷ decimal (2 ^ 64 - n)

pub record Fraction : Type 0 where
  pub rest : ℕ
  pub shown : Text

-- `fmtFrac`: the last `prec` digits of `v` before `tail`, without the zeros at their end.
unfoldable pub fmt_frac : ℕ → ℕ → Bool → Text → Fraction
fmt_frac zero v print tail = record { rest = v; shown = if print then 46 ∷ tail else tail }
fmt_frac (suc prec) v print tail =
    let digit = v % 10 in
    let print' = print || not (digit == 0) in
    fmt_frac prec (v / 10) print' (if print' then (48 + digit) ∷ tail else tail)

-- The units below a second; 181 is the micro sign.
unfoldable pub small_text : ℕ → Text
unfolding fmt_frac decimal
small_text u =
    if u == 0
    then codes "0s"
    else if ltb u 1000
    then decimal u ++ codes "ns"
    else if ltb u 1000000
    then (let f = fmt_frac 3 u false (181 ∷ codes "s") in decimal f.rest ++ f.shown)
    else (let f = fmt_frac 6 u false (codes "ms") in decimal f.rest ++ f.shown)

unfoldable pub large_text : ℕ → Text
unfolding fmt_frac decimal
large_text u =
    let f = fmt_frac 9 u false (codes "s") in
    let seconds = decimal (f.rest % 60) ++ f.shown in
    let minutes = f.rest / 60 in
    let hours = minutes / 60 in
    if minutes == 0
    then seconds
    else if hours == 0
    then decimal minutes ++ codes "m" ++ seconds
    else decimal hours ++ codes "h" ++ decimal (minutes % 60) ++ codes "m" ++ seconds

-- `Duration.String`
unfoldable pub duration_text : ℕ → Text
unfolding small_text large_text
duration_text d =
    let u = if is_nonneg d then d else 2 ^ 64 - d in
    let text = if ltb u 1000000000 then small_text u else large_text u in
    if is_nonneg d then text else 45 ∷ text

seconds_run : duration_text 10000000000 ≡ codes "10s"
unfolding duration_text small_text large_text fmt_frac decimal digits
seconds_run = refl

mixed_run : duration_text 5430500000000 ≡ codes "1h30m30.5s"
unfolding duration_text small_text large_text fmt_frac decimal digits
mixed_run = refl

small_run : duration_text 1200000 ≡ codes "1.2ms"
unfolding duration_text small_text large_text fmt_frac decimal digits
small_run = refl
