-- ===== src/Prelude/Words.antt =====
-- int64 counters as their bit patterns: a number below 2 ^ 64, which wraps around.
use Prim.Native.Nat.{ℕ, ◌+◌, ◌-◌, ◌%◌, ◌^◌, ◌<◌}
use mathlib.Core.Path.{◌≡◌}
use native.Mathlib.Omega.{arith}

abbrev pub int64_mod : ℕ
int64_mod = 2 ^ 64

-- atomic.Int64.Add(1), Add(-1) and `+`
unfoldable pub inc : ℕ → ℕ
inc n = (n + 1) % 2 ^ 64

unfoldable pub dec : ℕ → ℕ
dec n = (n + (2 ^ 64 - 1)) % 2 ^ 64

unfoldable pub add_int64 : ℕ → ℕ → ℕ
add_int64 m n = (m + n) % 2 ^ 64

pub inc_lt : (n : ℕ) → inc n < int64_mod
unfolding inc
inc_lt n = omega arith

pub dec_lt_int64 : (n : ℕ) → dec n < int64_mod
unfolding dec
dec_lt_int64 n = omega arith

-- A counter that is raised and lowered again is as before.
pub dec-inc : (n : ℕ) → n < int64_mod → dec (inc n) ≡ n
unfolding inc dec
dec-inc n h = omega arith

pub add_int64-inc : (m n : ℕ) → add_int64 m (inc n) ≡ inc (add_int64 m n)
unfolding add_int64 inc
add_int64-inc m n = omega arith
