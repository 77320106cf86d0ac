-- ===== src/Util/Tests.antt =====
-- The theorem on IntWithCommas at a number, and runs.
use nsqlite.Prelude.{◌⊎◌, ℕ, ◌-◌, ◌^◌, ◌≡◌, refl, none, some, Text, codes, arith}
use nsqlite.Config.Decimal.{decimal, digits}
use nsqlite.Config.Durations.{int_text}
use nsqlite.Util.Numbers.{int_with_commas, without_commas, int_with_commas-ends}

int_with_commas-ends_example :
    ((t : Text) × (int_with_commas 8 1234567 ≡ some t) × (without_commas t ≡ int_text 1234567))
    ⊎ ((1234567 ≡ 2 ^ 63) × ((depth : ℕ) → int_with_commas depth 1234567 ≡ none))
int_with_commas-ends_example = int_with_commas-ends 1234567 (omega arith)

commas_run : int_with_commas 8 1234567 ≡ some (codes "1,234,567")
unfolding int_with_commas decimal digits
commas_run = refl

negative_run : int_with_commas 8 (2 ^ 64 - 12345) ≡ some (codes "-12,345")
unfolding int_with_commas decimal digits
negative_run = refl
