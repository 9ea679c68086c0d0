-- ===== src/Benchmarks/Worker/Message.antt =====
-- `process_message` of app/benchmarks/worker.py.
use codejudge_ai.Base.{ℕ, Bool, Option, none, some, if◌then◌else◌}
use codejudge_ai.Base.Errors.{Result, ok, raise}
use codejudge_ai.Benchmarks.Model.{BenchmarkSample, BenchmarkTables, sample_key, is_terminal}
use codejudge_ai.Benchmarks.Samples.{claim}
use codejudge_ai.Benchmarks.Worker.Process.{get_sample, run_with_lease}
use codejudge_ai.Benchmarks.Worker.Surroundings.{BenchmarkWorker, Surroundings}
use codejudge_ai.Worker.Process.{Processed, raised, acknowledge, settle, unless_persistence}

module _ (w : BenchmarkWorker) (s : Surroundings) where
  -- the answer of `_run_with_lease`
  unfoldable pub after_run : Result Bool × BenchmarkTables → Processed × BenchmarkTables
  unfolding settle
  after_run (ok transition_recorded, db) = (settle s.queue_up transition_recorded, db)
  after_run (raise e, db) = (raised e, db)

  -- the answer of claim
  unfoldable pub after_claim :
      Result (Option BenchmarkSample) × BenchmarkTables → Processed × BenchmarkTables
  unfolding unless_persistence acknowledge after_run run_with_lease
  after_claim (raise e, db) = (unless_persistence e, db)
  after_claim (ok none, db) = (acknowledge s.queue_up, db)
  after_claim (ok (some claimed), db) = after_run (run_with_lease w s claimed db)

  -- the answer of get_sample
  unfoldable pub after_lookup :
      Result (Option BenchmarkSample) → BenchmarkTables → Processed × BenchmarkTables
  unfolding unless_persistence acknowledge after_claim
  after_lookup (raise e) db = (unless_persistence e, db)
  after_lookup (ok none) db = (acknowledge s.queue_up, db)
  after_lookup (ok (some sample)) db =
      if is_terminal sample.status
      then (acknowledge s.queue_up, db)
      else after_claim (
          claim s.claim_link (sample_key sample) w.worker_id s.claim_time w.lease_seconds
            (s.before_claim db))

  unfoldable pub process_message : ℕ → BenchmarkTables → Processed × BenchmarkTables
  unfolding after_lookup get_sample
  process_message sample_id db = after_lookup (get_sample s.lookup_link sample_id db) db
