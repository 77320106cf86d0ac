-- ===== src/Db/Tests.antt =====
-- The theorems on the database at concrete states, and runs of the model.
use nsqlite.Prelude.{
  ◌≡◌, refl, inl, inr, true, false, [], codes, text_eq, is_empty, arith, inc, dec,
}
use nsqlite.Stats.Defs.{
  new_db_stats, inc_errors, inc_begins, inc_commits, inc_queued_begins, dec_queued_begins,
  add_to_minute,
}
use nsqlite.Db.Types.{QueryResult, begin, commit, tx_not_match, ok, err}
use nsqlite.Db.State.{Db, done, waits}
use nsqlite.Db.Classify.{
  classify_text, classify_on, classify_prepared_query, get_raw_conn, use_read_write_conn,
  with_read_write_conn, classify_query,
}
use nsqlite.Db.Exec.{
  execute_classified_query, execute_begin_query, execute_commit_query, finish_begin, finish_commit,
  plain_result,
}
use nsqlite.Db.Query.{
  query, query_locked, query_by, query_outside_tx, query_outside, query_classified, query_with_type,
  query_in_tx, run_classified, validate_tx_id, idle_tick,
}
use nsqlite.Db.Effect.{Rests, Effect, Ensures, MayWait}
use nsqlite.Db.Steps.{IsCounted}
use nsqlite.Db.Invariant.{query-Effect, Reach-IsBalanced, IsBalanced, Reach, Step}
use nsqlite.Db.Isolation.{query_foreign, write_waits}
use nsqlite.Db.Lifecycle.{begin_opens, query-Ends, Ends}
use nsqlite.Db.Monitor.{Ticks, tick_closes}
use nsqlite.Db.Sample.{World, engine, uuid_nonempty, ask, idle_db, busy_db}

idle_db-Rests : Rests false false idle_db
idle_db-Rests = ground arith

busy_db-Rests : Rests false false busy_db
busy_db-Rests = ground arith

idle_db-IsCounted : IsCounted idle_db.stats
unfolding new_db_stats
idle_db-IsCounted = omega arith

query-Effect_example :
    Ensures
      (MayWait (ask [] [] (codes "BEGIN")) idle_db)
      (λ _ t. Effect false false idle_db t)
      (query engine (ask [] [] (codes "BEGIN")) idle_db)
query-Effect_example =
    query-Effect engine uuid_nonempty (ask [] [] (codes "BEGIN")) idle_db idle_db-Rests
      idle_db-IsCounted

-- The calls below run the model on the sample environment.
abbrev opened_db : Db World
opened_db = record idle_db {
  world = record { time = 6; in_tx = true };
  stats = inc_begins 6 idle_db.stats;
  tx_id = codes "tx-1";
  tx_owner = codes "ann";
  tx_last_used = 6;
  tx_mu = true;
}

abbrev begun_result : QueryResult
begun_result = record (plain_result begin) { tx_id = codes "tx-1" }

begin_runs :
    query engine (ask [] (codes "ann") (codes " Begin;")) idle_db ≡ done (ok begun_result) opened_db
unfolding query query_locked query_by query_outside_tx query_outside query_classified classify_query
    classify_text execute_classified_query execute_begin_query finish_begin with_read_write_conn
    use_read_write_conn get_raw_conn text_eq inc_queued_begins dec_queued_begins inc dec
    new_db_stats inc_begins add_to_minute
begin_runs = refl

begin_opens_example :
    (begun_result.type ≡ begin)
    × (opened_db.tx_mu ≡ true)
    × (is_empty opened_db.tx_id ≡ false)
    × (validate_tx_id begun_result.tx_id (codes "ann") opened_db ≡ ok tt)
unfolding classify_text
begin_opens_example =
    begin_opens engine uuid_nonempty (ask [] (codes "ann") (codes " Begin;")) idle_db idle_db-Rests
      refl refl refl begun_result opened_db begin_runs

-- The transaction begins on a new database.
Reach-IsBalanced_example : IsBalanced engine uuid_nonempty 0 0 opened_db
Reach-IsBalanced_example =
    Reach-IsBalanced engine uuid_nonempty {w = idle_db.world}
      (Reach.next Reach.here (Step.by_query (ask [] (codes "ann") (codes " Begin;")) _ begin_runs))

query_foreign_example :
    query engine (ask (codes "tx-1") (codes "bob") (codes "COMMIT")) busy_db
    ≡ done (err tx_not_match) (record busy_db { stats = inc_errors 90 busy_db.stats })
unfolding text_eq
query_foreign_example =
    query_foreign engine (ask (codes "tx-1") (codes "bob") (codes "COMMIT")) busy_db busy_db-Rests
      (refl, inr (refl, refl))

write_waits_example :
    query engine (ask [] (codes "bob") (codes "DELETE FROM t")) busy_db ≡ waits busy_db
unfolding classify_text classify_on get_raw_conn classify_prepared_query
write_waits_example =
    write_waits engine (ask [] (codes "bob") (codes "DELETE FROM t")) busy_db busy_db-Rests refl
      refl refl

abbrev committed_db : Db World
committed_db = record busy_db {
  world = record { time = 90; in_tx = false };
  stats = inc_commits 90 busy_db.stats;
  tx_id = [];
  tx_owner = [];
  tx_last_used = 90;
  tx_mu = false;
}

commit_runs :
    query engine (ask (codes "tx-1") (codes "ann") (codes "commit")) busy_db
    ≡ done (ok (plain_result commit)) committed_db
unfolding query query_locked query_by query_with_type query_in_tx run_classified validate_tx_id
    classify_query classify_text execute_classified_query execute_commit_query finish_commit
    with_read_write_conn use_read_write_conn get_raw_conn text_eq
commit_runs = refl

query-Ends_example : Ends engine commit busy_db (ok (plain_result commit)) committed_db
unfolding validate_tx_id text_eq classify_text
query-Ends_example =
    query-Ends engine (ask (codes "tx-1") (codes "ann") (codes "commit")) commit busy_db
      busy_db-Rests refl refl (inl refl) refl (ok (plain_result commit)) committed_db commit_runs

tick_closes_example : Ticks engine false 50 busy_db (idle_tick engine 50 busy_db)
tick_closes_example = tick_closes engine uuid_nonempty 50 false busy_db busy_db-Rests
