-- ===== src/Sqlite/Query.antt =====
-- internal/sqlite/sqlite.go: `Conn.Query`. What SQLite does with a statement is given by a record:
-- the stream of its results is finite, and `Finalize`, deferred, shows in nothing here.
use nsqlite.Prelude.{
  ℕ, zero, suc, ◌+◌, Bool, true, false, List, [], ◌∷◌, ◌++◌, map, length, Text, codes, has_prefix,
  to_upper, is_empty, ◌==◌, if◌then◌else◌, ◌⊎◌, inl, inr,
}
use nsqlite.Db.Types.{Value, null, QueryParam, SqliteResult}
use nsqlite.Sqlite.Values.{Cell, bind_dynamic, column_dynamic, column_value_type}

-- What sqlite3_step gives: a row, the end, or an error.
pub data Stream : Type 0 where
  finished : Stream
  failed : Text → Stream
  row : List Cell → Stream → Stream

-- A prepared statement. `run` and `counts` are asked with the bindings in the order they were made.
pub record Statement : Type 0 where
  -- sqlite3_column_name and sqlite3_column_decltype, by column
  pub column_names : List Text
  pub column_decltypes : List Text
  -- sqlite3_bind_parameter_index, 0 for an unknown name
  pub parameter_index : Text → ℕ
  -- whether a sqlite3_bind function gives SQLITE_OK
  pub can_bind : ℕ → Cell → Bool
  pub run : List (ℕ × Cell) → Stream
  -- sqlite3_last_insert_rowid and sqlite3_changes, once it has run
  pub counts : List (ℕ × Cell) → ℕ × ℕ

pub data Fault : Type 0 where
  prepare_query : Text → Fault
  bind_nameless_parameter bind_named_parameter : Fault
  find_named_parameter_index : Text → Fault
  step_statement : Text → Fault

pub data Answer {ℓ} (A : Type ℓ) : Type ℓ where
  answer : A → Answer A
  fault : Fault → Answer A

infixl 5 ◌>>=◌ ◌>>◌
abbrev pub ◌>>=◌ {ℓ κ} : {A : Type ℓ} {B : Type κ} → Answer A → (A → Answer B) → Answer B
answer a >>= f = f a
fault x >>= f = fault x

abbrev pub ◌>>◌ {ℓ κ} : {A : Type ℓ} {B : Type κ} → Answer A → Answer B → Answer B
m >> n = m >>= λ _. n

abbrev pub prefixes : List Text
prefixes = codes ":" ∷ codes "@" ∷ codes "$" ∷ codes "?" ∷ []

abbrev pub has_some_prefix : Text → List Text → Bool
has_some_prefix name [] = false
has_some_prefix name (p ∷ ps) = if has_prefix name p then true else has_some_prefix name ps

abbrev pub first_index : (Text → ℕ) → Text → List Text → ℕ
first_index find name [] = 0
first_index find name (p ∷ ps) =
    let rest = first_index find name ps in
    let index = find (p ++ name) in if index == 0 then rest else index

unfoldable pub bind_parameter_index_safe : (Text → ℕ) → Text → ℕ
bind_parameter_index_safe find name =
    if is_empty name
    then 0
    else if has_some_prefix name prefixes
    then find name
    else first_index find name prefixes

abbrev pub bind_at : Statement → Fault → ℕ → Value → Answer (ℕ × Cell)
bind_at st x index value =
    if st.can_bind index (bind_dynamic value) then answer (index, bind_dynamic value) else fault x

-- One turn of the loop, for the parameter at the place `i`.
unfoldable pub bind_one : Statement → ℕ → QueryParam → Answer (ℕ × Cell)
bind_one st i p =
    let index = bind_parameter_index_safe st.parameter_index p.name in
    if is_empty p.name
    then bind_at st bind_nameless_parameter (i + 1) p.value
    else if index == 0
    then fault (find_named_parameter_index p.name)
    else bind_at st bind_named_parameter index p.value

unfoldable pub bind_all : Statement → ℕ → List QueryParam → Answer (List (ℕ × Cell))
bind_all st i [] = answer []
bind_all st i (p ∷ ps) = do b ← bind_one st i p; bs ← bind_all st (i + 1) ps; answer (b ∷ bs)

-- The loop of a statement without columns.
unfoldable pub step_all : Stream → Answer (Unit {0})
step_all finished = answer tt
step_all (failed x) = fault (step_statement x)
step_all (row cells rest) = step_all rest

-- The values of one row; a column that is not there is NULL.
unfoldable pub read_row : ℕ → List Cell → List Value
read_row zero cells = []
read_row (suc n) [] = null ∷ read_row n []
read_row (suc n) (c ∷ cells) = column_dynamic c ∷ read_row n cells

-- The first row gives the types that the table does not declare.
unfoldable pub infer_types : List Text → List Value → List Text
infer_types [] vs = []
infer_types (t ∷ ts) [] = t ∷ ts
infer_types (t ∷ ts) (v ∷ vs) = (if is_empty t then column_value_type v else t) ∷ infer_types ts vs

unfoldable pub read_rows : ℕ → Stream → Answer (List (List Value))
read_rows n finished = answer []
read_rows n (failed x) = fault (step_statement x)
read_rows n (row cells rest) = do rows ← read_rows n rest; answer (read_row n cells ∷ rows)

abbrev pub types_of : List Text → List (List Value) → List Text
types_of ts [] = ts
types_of ts (vs ∷ rows) = infer_types ts vs

unfoldable pub query_columns : Statement → List (ℕ × Cell) → Answer SqliteResult
query_columns st bindings = do
  rows ← read_rows (length st.column_names) (st.run bindings)
  answer (record {
    last_insert_id = 0;
    rows_affected = 0;
    columns = st.column_names;
    types = types_of (map to_upper st.column_decltypes) rows;
    rows = rows;
  })

unfoldable pub query_no_columns : Statement → List (ℕ × Cell) → Answer SqliteResult
query_no_columns st bindings = do
  step_all (st.run bindings)
  answer (record {
    last_insert_id = (st.counts bindings).0;
    rows_affected = (st.counts bindings).1;
    columns = [];
    types = [];
    rows = [];
  })

abbrev pub run_bound : Statement → List (ℕ × Cell) → Answer SqliteResult
run_bound st bindings =
    if is_empty st.column_names then query_no_columns st bindings else query_columns st bindings

unfoldable pub run_statement : Statement → List QueryParam → Answer SqliteResult
run_statement st params = do bindings ← bind_all st 0 params; run_bound st bindings

-- `Conn.Query`, by what sqlite3_prepare_v2 gives: a statement or an error.
unfoldable pub query : (Text → Statement ⊎ Text) → Text → List QueryParam → Answer SqliteResult
query prepare sql params = elim (prepare sql) [
  | inl st ↦ run_statement st params
  | inr x ↦ fault (prepare_query x)
]
