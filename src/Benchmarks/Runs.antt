-- ===== src/Benchmarks/Runs.antt =====
-- _finish_run_if_terminal and reconcile_terminal_runs of app/benchmarks/repositories.py.
use codejudge_ai.Base.{
  ℕ, ◌+◌, Bool, true, false, not, ◌&&◌, none, some, List, [], ◌∷◌, count, filter, map, take,
  or_else, ltb, ◌==◌, if◌then◌else◌,
}
use codejudge_ai.Base.Table.{find, put}
use codejudge_ai.Base.Sort.{sort}
use codejudge_ai.Benchmarks.Model.{
  BenchmarkRun, BenchmarkRunStatus, BenchmarkSample, BenchmarkTables, run_key, is_terminal,
  is_skipped,
}

abbrev pub in_run : ℕ → BenchmarkSample → Bool
in_run run_id sample = sample.plan.benchmark_run_id == run_id

-- the SELECT count of the samples that are not terminal
unfoldable pub remaining : ℕ → List BenchmarkSample → ℕ
remaining run_id samples = count (λ s. in_run run_id s && not (is_terminal s.status)) samples

-- the SELECT count of the skipped samples
unfoldable pub skipped_samples : ℕ → List BenchmarkSample → ℕ
skipped_samples run_id samples = count (λ s. in_run run_id s && is_skipped s.status) samples

abbrev pub ended : BenchmarkRunStatus → ℕ → BenchmarkRun → BenchmarkRun
ended status now run = record run {
  status = status;
  completed_at = some (or_else run.completed_at now);
}

unfoldable pub finish_run : ℕ → BenchmarkRun → BenchmarkTables → Bool × BenchmarkTables
finish_run now run db =
    if remaining run.benchmark_run_id db.samples == 0
    then (
      true,
      record db {
        runs =
            put run_key
              (ended
                (if skipped_samples run.benchmark_run_id db.samples == 0
                  then BenchmarkRunStatus.completed
                  else BenchmarkRunStatus.partial)
                now run)
              db.runs;
      },
    )
    else (false, db)

unfoldable pub finish_run_if_terminal : ℕ → ℕ → BenchmarkTables → Bool × BenchmarkTables
finish_run_if_terminal run_id now db = elim (find run_key run_id db.runs) [
  | none ↦ (false, db)
  | some run ↦ finish_run now run db
]

-- `BenchmarkRunRecord.status.in_([QUEUED, RUNNING])`
abbrev pub is_underway : BenchmarkRunStatus → Bool
is_underway BenchmarkRunStatus.queued = true
is_underway BenchmarkRunStatus.running = true
is_underway _ = false

unfoldable pub underway_runs : ℕ → List BenchmarkRun → List ℕ
underway_runs limit runs = map run_key (
    take limit
      (sort (λ a b. ltb a.created_at b.created_at) (filter (λ r. is_underway r.status) runs)))

unfoldable pub finish_runs : ℕ → List ℕ → BenchmarkTables → ℕ × BenchmarkTables
finish_runs now [] db = (0, db)
finish_runs now (run_id ∷ run_ids) db =
    let one = finish_run_if_terminal run_id now db in
    let rest = finish_runs now run_ids one.1 in ((if one.0 then 1 else 0) + rest.0, rest.1)

unfoldable pub reconcile_terminal_runs : ℕ → ℕ → BenchmarkTables → ℕ × BenchmarkTables
reconcile_terminal_runs now limit db = finish_runs now (underway_runs limit db.runs) db
