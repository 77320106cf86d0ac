-- ===== src/Sqlite/Results.antt =====
-- What the result of a query of internal/sqlite/sqlite.go looks like, and how its parameters stand.
use nsqlite.Prelude.{
  ℕ, zero, suc, ◌+◌, ◌≡◌, refl, subst, true, false, List, [], ◌∷◌, map, length, Text, is_empty, All,
  arith, to_upper, inl, inr, ◌⊎◌, Option, none, some, get_elem?, ltb, if◌then◌else◌,
}
use nsqlite.Db.Types.{Value, QueryParam, SqliteResult}
use nsqlite.Sqlite.Values.{Cell, cell_null, bind_dynamic, column_dynamic, column_value_type}
use nsqlite.Sqlite.Query.{
  Statement, Stream, finished, failed, row, Fault, Answer, answer, fault, bind_one, bind_all,
  read_row, infer_types, read_rows, types_of, query_columns, run_bound, run_statement,
}

-- The outcome of a call, when it is no fault.
abbrev pub Gives {ℓ} : {A : Type ℓ} → (A → Type 0) → Answer A → Type 0
Gives P (answer a) = P a
Gives P (fault x) = Unit

Answer-cases {ℓ} :
    {A : Type ℓ} (o : Answer A) → ((a : A) × (o ≡ answer a)) ⊎ ((x : Fault) × (o ≡ fault x))
Answer-cases (answer a) = inl (a, refl)
Answer-cases (fault x) = inr (x, refl)

abbrev pub numbered : ℕ → List QueryParam → List (ℕ × Cell)
numbered i [] = []
numbered i (p ∷ ps) = (i + 1, bind_dynamic p.value) ∷ numbered (i + 1) ps

abbrev pub AreNameless : List QueryParam → Type 0
AreNameless ps = All (λ p. is_empty p.name ≡ true) ps

bind_one-nameless :
    (st : Statement) (i : ℕ) (p : QueryParam)
    → is_empty p.name ≡ true
    → Gives (λ b. b ≡ (i + 1, bind_dynamic p.value)) (bind_one st i p)
unfolding bind_one
bind_one-nameless st i p h = ground arith

bind_all-numbered :
    (st : Statement) (i : ℕ) (ps : List QueryParam)
    → AreNameless ps
    → Gives (λ bs. bs ≡ numbered i ps) (bind_all st i ps)
unfolding bind_all
bind_all-numbered st i [] h = refl
bind_all-numbered st i (p ∷ ps) h =
    ground (arith, bind_one-nameless st i p h.0, bind_all-numbered st (i + 1) ps h.1)

-- A query that succeeds with parameters that have no names has bound their values at the places 1,
-- 2 and so on, in their order, and its result is that of the statement with these bindings.
pub run_statement-nameless :
    (st : Statement) (ps : List QueryParam) (r : SqliteResult)
    → AreNameless ps
    → run_statement st ps ≡ answer r
    → run_bound st (numbered 0 ps) ≡ answer r
unfolding run_statement
run_statement-nameless st ps r h k = ground (arith, bind_all-numbered st 0 ps h)

-- The rows that a statement gives before it ends.
abbrev pub rows_of : Stream → List (List Cell)
rows_of finished = []
rows_of (failed x) = []
rows_of (row cells rest) = cells ∷ rows_of rest

-- The cell of a column; a column that is not there is NULL.
abbrev pub cell_at : List Cell → ℕ → Cell
cell_at cells j = elim (get_elem? cells j) [ none ↦ cell_null | some cell ↦ cell ]

-- The value at a row and a column of a result.
abbrev pub value_at : List (List Value) → ℕ → ℕ → Option Value
value_at rows i j = elim (get_elem? rows i) [ none ↦ none | some vs ↦ get_elem? vs j ]

-- The value that it should be, with `n` columns.
abbrev pub read_at : ℕ → List (List Cell) → ℕ → ℕ → Option Value
read_at n rows i j = elim (get_elem? rows i) [
  | none ↦ none
  | some cells ↦ if ltb j n then some (column_dynamic (cell_at cells j)) else none
]

-- The type of a column: the declared one, or else that of its first value.
abbrev pub type_or : Text → Option Value → Text
type_or [] none = []
type_or [] (some v) = column_value_type v
type_or (c ∷ s) v = to_upper (c ∷ s)

abbrev pub type_at : List Text → List (List Value) → ℕ → Option Text
type_at decltypes rows j = elim (get_elem? decltypes j) [
  | none ↦ none
  | some decltype ↦ some (type_or decltype (value_at rows 0 j))
]

get_elem?-read_row :
    (n : ℕ) (cells : List Cell) (j : ℕ)
    → get_elem? (read_row n cells) j
      ≡ (if ltb j n then some (column_dynamic (cell_at cells j)) else none)
unfolding read_row column_dynamic
get_elem?-read_row zero cells j = ground arith
get_elem?-read_row (suc n) [] zero = ground arith
get_elem?-read_row (suc n) [] (suc j) = ground (arith, get_elem?-read_row n [] j)
get_elem?-read_row (suc n) (c ∷ cells) zero = ground arith
get_elem?-read_row (suc n) (c ∷ cells) (suc j) = ground (arith, get_elem?-read_row n cells j)

read_rows-read_at :
    (n : ℕ) (s : Stream) (rows : List (List Value)) (i j : ℕ)
    → read_rows n s ≡ answer rows
    → value_at rows i j ≡ read_at n (rows_of s) i j
unfolding read_rows
read_rows-read_at n finished rows i j h = ground arith
read_rows-read_at n (failed x) rows i j h = absurd (ground arith)
read_rows-read_at n (row cells rest) rows zero j h = elim (Answer-cases (read_rows n rest)) [
  | inr (x, is) ↦ absurd (ground arith)
  | inl (others, is) ↦ ground (arith, get_elem?-read_row n cells j)
]
read_rows-read_at n (row cells rest) rows (suc i) j h = elim (Answer-cases (read_rows n rest)) [
  | inr (x, is) ↦ absurd (ground arith)
  | inl (others, is) ↦ ground (arith, read_rows-read_at n rest others i j is)
]

get_elem?-upper :
    (decltypes : List Text) (j : ℕ)
    → get_elem? (map to_upper decltypes) j
      ≡ elim (get_elem? decltypes j) [ none ↦ none | some decltype ↦ some (type_or decltype none) ]
unfolding to_upper
get_elem?-upper [] j = refl
get_elem?-upper ([] ∷ ds) zero = refl
get_elem?-upper ((c ∷ d) ∷ ds) zero = refl
get_elem?-upper (d ∷ ds) (suc j) = get_elem?-upper ds j

get_elem?-infer_types :
    (decltypes : List Text) (vs : List Value) (j : ℕ)
    → get_elem? (infer_types (map to_upper decltypes) vs) j ≡ elim (get_elem? decltypes j) [
      | none ↦ none
      | some decltype ↦ some (type_or decltype (get_elem? vs j))
    ]
unfolding infer_types to_upper
get_elem?-infer_types [] vs j = refl
get_elem?-infer_types ([] ∷ ds) [] zero = refl
get_elem?-infer_types ((c ∷ d) ∷ ds) [] zero = refl
get_elem?-infer_types ([] ∷ ds) (v ∷ vs) zero = refl
get_elem?-infer_types ((c ∷ d) ∷ ds) (v ∷ vs) zero = refl
get_elem?-infer_types (d ∷ ds) [] (suc j) = get_elem?-upper ds j
get_elem?-infer_types (d ∷ ds) (v ∷ vs) (suc j) = get_elem?-infer_types ds vs j

types-type_at :
    (decltypes : List Text) (rows : List (List Value)) (j : ℕ)
    → get_elem? (types_of (map to_upper decltypes) rows) j ≡ type_at decltypes rows j
types-type_at decltypes [] j = get_elem?-upper decltypes j
types-type_at decltypes (vs ∷ rows) j = get_elem?-infer_types decltypes vs j

-- The columns, the types and the values of a result, at a row and a column.
abbrev pub IsTable : Statement → List (ℕ × Cell) → SqliteResult → ℕ → ℕ → Type 0
IsTable st bindings r i j =
    (r.columns ≡ st.column_names)
    × (value_at r.rows i j ≡ read_at (length st.column_names) (rows_of (st.run bindings)) i j)
    × (get_elem? r.types j ≡ type_at st.column_decltypes r.rows j)

columns-IsTable :
    (st : Statement) (bindings : List (ℕ × Cell)) (rows : List (List Value)) (i j : ℕ)
    → read_rows (length st.column_names) (st.run bindings) ≡ answer rows
    → Gives (λ r. IsTable st bindings r i j) (query_columns st bindings)
unfolding query_columns
columns-IsTable st bindings rows i j is = rw is (
  refl,
  read_rows-read_at (length st.column_names) (st.run bindings) rows i j is,
  types-type_at st.column_decltypes rows j,
)

query_columns-IsTable :
    (st : Statement) (bindings : List (ℕ × Cell)) (i j : ℕ)
    → Gives (λ r. IsTable st bindings r i j) (query_columns st bindings)
unfolding query_columns
query_columns-IsTable st bindings i j =
    elim (Answer-cases (read_rows (length st.column_names) (st.run bindings))) [
      | inl (rows, is) ↦ columns-IsTable st bindings rows i j is
      | inr (x, is) ↦ rw is tt
    ]

-- The result of a query with columns that succeeds has the statement's column names. At each row
-- and column it has the value of the cell that the statement gave in this row and column, NULL
-- where it gave none, and nothing beyond its rows and columns. The type of a column is the declared
-- one in upper case, or without one that of the value in the first row, or the empty text without a
-- row.
pub run_statement-IsTable :
    (st : Statement) (ps : List QueryParam) (bindings : List (ℕ × Cell)) (r : SqliteResult)
    (i j : ℕ)
    → is_empty st.column_names ≡ false
    → bind_all st 0 ps ≡ answer bindings
    → run_statement st ps ≡ answer r
    → IsTable st bindings r i j
unfolding run_statement
run_statement-IsTable st ps bindings r i j columns bound k =
    let ran : query_columns st bindings ≡ answer r = ground arith in
    subst (λ o. Gives (λ q. IsTable st bindings q i j) o) ran
      (query_columns-IsTable st bindings i j)
