-- ===== src/Sqlite/Values.antt =====
-- internal/sqlite/sqlite.go: the values that are bound to a statement and read from a row.
use nsqlite.Prelude.{
  ℕ, ◌+◌, ◌-◌, ◌%◌, ◌^◌, ◌<◌, ◌≤◌, ◌≡◌, refl, ap, ◌↔◌, ◌⊎◌, ◌*◌, Bool, false, List, [], ◌∷◌, Text,
  codes, any, is_empty, ltb, ◌==◌, if◌then◌else◌, arith,
}
use nsqlite.Db.Types.{Value, null, integer, real, text, blob}

-- A value as SQLite holds it; an integer is its 64-bit pattern.
pub data Cell : Type 0 where
  cell_null : Cell
  cell_integer cell_float : ℕ → Cell
  cell_text : Text → Cell
  cell_blob : List ℕ → Cell

-- A C string ends at its first NUL; `BindText` hands over no length.
unfoldable pub until_nul : Text → Text
until_nul [] = []
until_nul (c ∷ s) = let rest = until_nul s in if c == 0 then [] else c ∷ rest

-- `BindBlob` binds an empty slice as NULL.
abbrev pub bind_blob : List ℕ → Cell
bind_blob [] = cell_null
bind_blob (b ∷ bs) = cell_blob (b ∷ bs)

-- The bits of a float64 are those of a NaN: the exponent is full, and the fraction is not 0.
abbrev pub is_nan : ℕ → Bool
is_nan x = ltb (2047 * 2 ^ 52) (x % 2 ^ 63)

-- `BindDouble`: SQLite has no NaN, and sqlite3_bind_double binds NULL for it.
abbrev pub bind_double : ℕ → Cell
bind_double x = if is_nan x then cell_null else cell_float x

-- `BindDynamic`, for the types of values that the server sends.
unfoldable pub bind_dynamic : Value → Cell
bind_dynamic null = cell_null
bind_dynamic (integer n) = cell_integer n
bind_dynamic (real x) = bind_double x
bind_dynamic (text s) = cell_text (until_nul s)
bind_dynamic (blob bytes) = bind_blob bytes

-- `ColumnInt`: sqlite3_column_int gives the low 32 bits as a C int.
unfoldable pub column_int : ℕ → ℕ
column_int n = if ltb (n % 2 ^ 32) (2 ^ 31) then n % 2 ^ 32 else n % 2 ^ 32 + (2 ^ 64 - 2 ^ 32)

-- `ColumnDynamic`
unfoldable pub column_dynamic : Cell → Value
column_dynamic cell_null = null
column_dynamic (cell_integer n) = integer (column_int n)
column_dynamic (cell_float x) = real x
column_dynamic (cell_text s) = text s
column_dynamic (cell_blob bytes) = blob bytes

-- `ColumnValueType`
unfoldable pub column_value_type : Value → Text
column_value_type null = codes "NULL"
column_value_type (integer n) = codes "INTEGER"
column_value_type (real x) = codes "REAL"
column_value_type (text s) = codes "TEXT"
column_value_type (blob bytes) = codes "BLOB"

-- A 64-bit pattern of a number that 32 bits can hold, a float but NaN, a text with no NUL, a blob
-- that is not empty.
abbrev pub IsStorable : Value → Type 0
IsStorable (integer n) = (n < 2 ^ 31) ⊎ (2 ^ 64 - 2 ^ 31 ≤ n)
IsStorable (real x) = is_nan x ≡ false
IsStorable (text s) = any (λ c. c == 0) s ≡ false
IsStorable (blob bytes) = is_empty bytes ≡ false
IsStorable _ = Unit

abbrev pub IsInt64 : Value → Type 0
IsInt64 (integer n) = n < 2 ^ 64
IsInt64 _ = Unit

until_nul_iff : (s : Text) → (until_nul s ≡ s) ↔ (any (λ c. c == 0) s ≡ false)
unfolding until_nul
until_nul_iff [] = (λ h. refl, λ h. refl)
until_nul_iff (c ∷ s) =
    (λ h. ground (arith, (until_nul_iff s).0), λ h. ground (arith, (until_nul_iff s).1))

-- A value that is bound as a parameter and read from a column is the same value exactly when it is
-- an integer that 32 bits can hold, a text with no NUL, a blob that is not empty, a float but NaN,
-- or NULL; integers are 64-bit patterns.
pub column_dynamic-bind_dynamic :
    (v : Value) → IsInt64 v → (column_dynamic (bind_dynamic v) ≡ v) ↔ IsStorable v
unfolding column_dynamic bind_dynamic column_int
column_dynamic-bind_dynamic null w = (λ h. tt, λ h. refl)
column_dynamic-bind_dynamic (integer n) w = (λ h. ground arith, λ h. ground arith)
column_dynamic-bind_dynamic (real x) w = (λ h. ground arith, λ h. ground arith)
column_dynamic-bind_dynamic (text s) w =
    (λ h. ground (arith, (until_nul_iff s).0), λ h. ap text ((until_nul_iff s).1 h))
column_dynamic-bind_dynamic (blob []) w = (λ h. ground arith, λ h. ground arith)
column_dynamic-bind_dynamic (blob (b ∷ bs)) w = (λ h. refl, λ h. refl)
