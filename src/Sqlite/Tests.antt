-- ===== src/Sqlite/Tests.antt =====
-- Runs of a query on a small statement.
use nsqlite.Prelude.{ℕ, ◌^◌, ◌≡◌, refl, arith, ◌↔◌, true, [], ◌∷◌, List, codes, to_upper}
use nsqlite.Db.Types.{null, integer, text, QueryParam, SqliteResult}
use nsqlite.Sqlite.Values.{
  Cell, cell_null, cell_integer, cell_text, bind_dynamic, column_dynamic, column_int,
  column_value_type, IsStorable, column_dynamic-bind_dynamic,
}
use nsqlite.Sqlite.Query.{
  Statement, finished, row, answer, bind_one, bind_all, read_row, read_rows, infer_types,
  query_columns, run_bound, run_statement,
}
use nsqlite.Sqlite.Results.{IsTable, numbered, run_statement-nameless, run_statement-IsTable}

abbrev select_two : Statement
select_two = record {
  column_names = codes "id" ∷ codes "n" ∷ [];
  column_decltypes = codes "integer" ∷ [] ∷ [];
  parameter_index = λ name. 0;
  can_bind = λ i cell. true;
  run = λ bs. row (cell_integer 1 ∷ cell_text (codes "a") ∷ []) (row (cell_null ∷ []) finished);
  counts = λ bs. (0, 0);
}

abbrev two_params : List QueryParam
two_params =
    record { name = []; value = integer 5 } ∷ record { name = []; value = text (codes "b") } ∷ []

abbrev two_rows : SqliteResult
two_rows = record {
  last_insert_id = 0;
  rows_affected = 0;
  columns = codes "id" ∷ codes "n" ∷ [];
  types = codes "INTEGER" ∷ codes "TEXT" ∷ [];
  rows = (integer 1 ∷ text (codes "a") ∷ []) ∷ (null ∷ null ∷ []) ∷ [];
}

selects : run_statement select_two two_params ≡ answer two_rows
unfolding run_statement bind_all bind_one query_columns read_rows read_row infer_types
    column_dynamic column_int column_value_type to_upper
selects = refl

column_dynamic-bind_dynamic_example :
    (column_dynamic (bind_dynamic (integer (2 ^ 31))) ≡ integer (2 ^ 31))
    ↔ IsStorable (integer (2 ^ 31))
column_dynamic-bind_dynamic_example = column_dynamic-bind_dynamic (integer (2 ^ 31)) (omega arith)

run_statement-nameless_example : run_bound select_two (numbered 0 two_params) ≡ answer two_rows
run_statement-nameless_example =
    run_statement-nameless select_two two_params two_rows (refl, (refl, tt)) selects

abbrev two_bindings : List (ℕ × Cell)
two_bindings = numbered 0 two_params

binds : bind_all select_two 0 two_params ≡ answer two_bindings
unfolding bind_all bind_one
binds = refl

-- The second value of the first row, of a column without a declared type.
run_statement-IsTable_example : IsTable select_two two_bindings two_rows 0 1
run_statement-IsTable_example =
    run_statement-IsTable select_two two_params two_bindings two_rows 0 1 refl binds selects
