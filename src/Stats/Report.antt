-- ===== src/Stats/Report.antt =====
-- What the snapshot of the statistics says of the counters that were raised.
use mathlib.Core.List.{Perm}
use mathlib.Core.List.Perm
use nsqlite.Prelude.{
  ℕ, ◌-◌, ◌*◌, ◌≤◌, ◌<◌, ◌≡◌, refl, ◌∙◌, Bool, true, false, List, [], ◌∷◌, map, none, arith, ltb,
  inl, inr, if◌then◌else◌, inc, add_int64, Bool-cases, int64_mod,
}
use nsqlite.Stats.Defs.{
  MinuteData, DbStats, hour, empty_minute, load, add_to_minute, delete_before, cleanup, inc_reads,
  inc_writes, inc_begins, inc_commits, inc_rollbacks, inc_errors, inc_http_requests,
}
use nsqlite.Stats.Load.{
  Stat, add_counters, range_totals, stat_of, insert_stat, sort_stats, load_stats,
}
use nsqlite.Stats.Counters.{total, total-lt, total-add_to_minute, total-add_to_minute_same}

pub data Counter : Type 0 where
  reads writes begins commits rollbacks errors http_requests : Counter

abbrev pub count_of : Counter → MinuteData → ℕ
count_of reads md = md.reads
count_of writes md = md.writes
count_of begins md = md.begins
count_of commits md = md.commits
count_of rollbacks md = md.rollbacks
count_of errors md = md.errors
count_of http_requests md = md.http_requests

abbrev pub counter_eq : Counter → Counter → Bool
counter_eq reads reads = true
counter_eq writes writes = true
counter_eq begins begins = true
counter_eq commits commits = true
counter_eq rollbacks rollbacks = true
counter_eq errors errors = true
counter_eq http_requests http_requests = true
counter_eq _ _ = false

abbrev raise : Counter → MinuteData → MinuteData
raise reads md = record md { reads = inc md.reads }
raise writes md = record md { writes = inc md.writes }
raise begins md = record md { begins = inc md.begins }
raise commits md = record md { commits = inc md.commits }
raise rollbacks md = record md { rollbacks = inc md.rollbacks }
raise errors md = record md { errors = inc md.errors }
raise http_requests md = record md { http_requests = inc md.http_requests }

-- The method that raises a counter.
abbrev pub inc_counter : Counter → ℕ → DbStats → DbStats
inc_counter reads = inc_reads
inc_counter writes = inc_writes
inc_counter begins = inc_begins
inc_counter commits = inc_commits
inc_counter rollbacks = inc_rollbacks
inc_counter errors = inc_errors
inc_counter http_requests = inc_http_requests

count_of-raise :
    (c d : Counter) (md : MinuteData)
    → count_of d (raise c md) ≡ (if counter_eq c d then inc (count_of d md) else count_of d md)
count_of-raise c d md = ground arith

count_of-empty : (d : Counter) → count_of d empty_minute ≡ 0
count_of-empty reads = refl
count_of-empty _ = refl

inc_counter-raise :
    (c : Counter) (now : ℕ) (s : DbStats) → inc_counter c now s ≡ add_to_minute (raise c) now s
unfolding inc_reads inc_writes inc_begins inc_commits inc_rollbacks inc_errors inc_http_requests
inc_counter-raise reads now s = refl
inc_counter-raise _ now s = refl

-- Raising one counter raises its total over all minutes, and no other total.
pub total-inc_counter :
    (c d : Counter) (now : ℕ) (s : DbStats)
    → total (count_of d) (inc_counter c now s).minutes ≡ (
        if counter_eq c d then inc (total (count_of d) s.minutes) else total (count_of d) s.minutes)
total-inc_counter c d now s = elim (Bool-cases (counter_eq c d)) [
  | inl same ↦
      rw (inc_counter-raise c now s, same)
        (total-add_to_minute (count_of d) (count_of-empty d) (raise c)
          (λ md. count_of-raise c d md ∙ rw same refl) now s)
  | inr other ↦
      rw (inc_counter-raise c now s, other)
        (total-add_to_minute_same (count_of d) (count_of-empty d) (raise c)
          (λ md. count_of-raise c d md ∙ rw other refl) now s)
]

add_counters-count_of :
    (d : Counter) (t md : MinuteData)
    → count_of d (add_counters t md) ≡ add_int64 (count_of d t) (count_of d md)
unfolding add_counters
add_counters-count_of reads t md = refl
add_counters-count_of _ t md = refl

range_totals-total :
    (d : Counter) (t : MinuteData) (m : List (ℕ × MinuteData))
    → count_of d t < int64_mod
    → count_of d (range_totals t m) ≡ add_int64 (count_of d t) (total (count_of d) m)
unfolding range_totals total
range_totals-total d t [] h = unfold add_int64 in omega arith
range_totals-total d t ((k, md) ∷ m) h =
    range_totals-total d (add_counters t md) m
      (rw (add_counters-count_of d t md) (unfold add_int64 in omega arith))
    ∙ rw (add_counters-count_of d t md) (unfold add_int64 in omega arith)

-- The snapshot's total of a counter is its sum over the minutes.
pub load_stats-total :
    (d : Counter) (now : ℕ) (s : DbStats)
    → count_of d (load_stats now s).totals ≡ total (count_of d) s.minutes
unfolding load_stats
load_stats-total d now s =
    range_totals-total d empty_minute s.minutes (rw (count_of-empty d) (omega arith))
    ∙ rw (count_of-empty d) (unfold add_int64 in omega (arith, total-lt (count_of d) s.minutes))

-- Raising one counter shows in the next snapshot as one more in that total, wrapping at 2^64, and
-- as the same value in each other total.
pub load_stats-inc_counter :
    (c d : Counter) (now later : ℕ) (s : DbStats)
    → count_of d (load_stats later (inc_counter c now s)).totals ≡ (
        if counter_eq c d
        then inc (count_of d (load_stats later s).totals)
        else count_of d (load_stats later s).totals)
load_stats-inc_counter c d now later s =
    load_stats-total d later (inc_counter c now s)
    ∙ rw (load_stats-total d later s) (total-inc_counter c d now s)

-- The rows go from the latest minute to the earliest.
abbrev pub IsDescending : List Stat → Type 0
IsDescending [] = Unit {0}
IsDescending (x ∷ []) = Unit {0}
IsDescending (x ∷ y ∷ ys) = (y.minute ≤ x.minute) × IsDescending (y ∷ ys)

insert_stat-IsDescending :
    (x : Stat) (ys : List Stat) → IsDescending ys → IsDescending (insert_stat x ys)
unfolding insert_stat
insert_stat-IsDescending x [] h = tt
insert_stat-IsDescending x (y ∷ []) h = ground arith
insert_stat-IsDescending x (y ∷ z ∷ zs) h = ground (arith, insert_stat-IsDescending x (z ∷ zs) h.1)

sort_stats-IsDescending : (xs : List Stat) → IsDescending (sort_stats xs)
unfolding sort_stats
sort_stats-IsDescending [] = tt
sort_stats-IsDescending (x ∷ xs) =
    insert_stat-IsDescending x (sort_stats xs) (sort_stats-IsDescending xs)

insert_stat-perm : (x : Stat) (ys : List Stat) → Perm (insert_stat x ys) (x ∷ ys)
unfolding insert_stat
insert_stat-perm x [] = Perm.refl _
insert_stat-perm x (y ∷ ys) = elim (Bool-cases (ltb x.minute y.minute)) [
  | inl later ↦
      rw (later, insert_stat) (Perm.trans (Perm.cons y (insert_stat-perm x ys)) (Perm.swap x y ys))
  | inr here ↦ rw (here, insert_stat) (Perm.refl _)
]

sort_stats-perm : (xs : List Stat) → Perm (sort_stats xs) xs
unfolding sort_stats
sort_stats-perm [] = Perm.refl _
sort_stats-perm (x ∷ xs) =
    Perm.trans (insert_stat-perm x (sort_stats xs)) (Perm.cons x (sort_stats-perm xs))

-- The snapshot has one row for each minute of the map, with its counters, the latest first.
pub load_stats-rows :
    (now : ℕ) (s : DbStats)
    → IsDescending (load_stats now s).stats × Perm (load_stats now s).stats (map stat_of s.minutes)
unfolding load_stats
load_stats-rows now s = (sort_stats-IsDescending (map stat_of s.minutes), sort_stats-perm _)

load-delete_before :
    (cutoff k : ℕ) (m : List (ℕ × MinuteData))
    → load k (delete_before cutoff m) ≡ (if ltb k cutoff then none else load k m)
unfolding load delete_before
load-delete_before cutoff k [] = ground arith
load-delete_before cutoff k ((j, md) ∷ m) = ground (arith, load-delete_before cutoff k m)

-- A round of the cleanup forgets exactly the minutes that began more than 24 hours ago.
pub load-cleanup :
    (now k : ℕ) (s : DbStats)
    → load k (cleanup now s).minutes ≡ (if ltb k (now - 24 * hour) then none else load k s.minutes)
unfolding cleanup
load-cleanup now k s = load-delete_before (now - 24 * hour) k s.minutes
