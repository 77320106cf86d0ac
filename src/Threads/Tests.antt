-- ===== src/Threads/Tests.antt =====
-- The theorems on calls at once at states that a schedule reaches.
use native.Mathlib.Decide.{ℕ_discrete}
use nsqlite.Prelude.{ℕ, ◌≡◌, ◌↔◌, ◌⊎◌, refl, true, false, [], ◌∷◌, codes, text_eq, is_empty}
use nsqlite.Db.Classify.{classify_text, get_raw_conn, use_read_write_conn}
use nsqlite.Db.Sample.{World, engine, uuid_nonempty, ask}
use nsqlite.Threads.Program.{tx_mu, write_mu, is_locked, ◌>>=◌}
use nsqlite.Threads.Calls.{
  ticked, run_query, tick, outside_program, first_program, query_locked_program, query_program,
  program,
}
use nsqlite.Threads.Exec.{
  typed_program, classify_program, conn_program, finish_begin_program, begin_program,
  execute_program,
}
use nsqlite.Threads.Safety.{never_fatal, conn_isolated, no_deadlock, CanMove}
use nsqlite.Threads.System.{System, init}
use nsqlite.Threads.Alone.{calls_in_turn, run_call, IsRun}
use nsqlite.Db.State.{Db, done}
use nsqlite.Db.Invariant.{new_db}
use nsqlite.Db.Query.{idle_tick, roll_back_if}
use nsqlite.Threads.Schedule.{calls, goes, Run, run, begins, happens, next_move, ended}

abbrev new_world : World
new_world = record { time = 5; in_tx = false }

-- Thread 0 is before the unlock of `writeMu` in its BEGIN; thread 1 waits for `txMu`.
abbrev contended : Run engine new_world
contended = run engine (begins engine new_world) (
    calls 0 (run_query (ask [] [] (codes "BEGIN")))
    ∷ goes 0
    ∷ goes 0
    ∷ goes 0
    ∷ goes 0
    ∷ calls 1 (run_query (ask [] [] (codes "BEGIN")))
    ∷ goes 1
    ∷ goes 1
    ∷ [])

never_fatal_example : is_locked write_mu contended.last.db ≡ true
unfolding run happens next_move ended program query_program query_locked_program first_program
    outside_program execute_program begin_program conn_program finish_begin_program classify_program
    typed_program classify_text use_read_write_conn get_raw_conn text_eq ◌>>=◌ ℕ_discrete
never_fatal_example = never_fatal engine uuid_nonempty contended.reach 0 write_mu _ refl

-- One access earlier thread 0 is about to run its BEGIN.
abbrev beginning : Run engine new_world
beginning =
    run engine (begins engine new_world)
      (calls 0 (run_query (ask [] [] (codes "BEGIN"))) ∷ goes 0 ∷ goes 0 ∷ goes 0 ∷ [])

conn_isolated_example : (beginning.last.db.tx_id ≡ []) × (◌≡◌ {A = ℕ} 0 0)
unfolding run happens next_move ended program query_program query_locked_program first_program
    outside_program execute_program begin_program conn_program finish_begin_program classify_program
    typed_program classify_text text_eq ◌>>=◌ ℕ_discrete
conn_isolated_example =
    conn_isolated engine uuid_nonempty beginning.reach 0 (_, _, refl) 0 {other = []} (_, _, refl)

no_deadlock_example :
    ((tx_mu ≡ tx_mu) × (is_empty contended.last.db.tx_id ≡ false))
    ⊎ ((j : ℕ) × CanMove contended.last.db (contended.last.pc j))
unfolding run happens next_move ended program query_program query_locked_program first_program
    outside_program execute_program begin_program conn_program finish_begin_program classify_program
    typed_program classify_text use_read_write_conn get_raw_conn text_eq ◌>>=◌ ℕ_discrete
no_deadlock_example = no_deadlock engine uuid_nonempty contended.reach tx_mu refl

abbrev ticked_db : Db World
ticked_db = new_db engine new_world

-- A tick of the monitor on a new database, which finds no transaction.
calls_in_turn_example :
    (run_call engine (tick 50) ticked_db ≡ done ticked ticked_db)
    ↔ ((u : System World) × IsRun engine (init engine new_world) 3 (tick 50) ticked ticked_db u)
calls_in_turn_example =
    calls_in_turn engine (init engine new_world) 3 refl (tick 50) ticked ticked_db

tick_runs : run_call engine (tick 50) ticked_db ≡ done ticked ticked_db
unfolding idle_tick roll_back_if
tick_runs = refl
