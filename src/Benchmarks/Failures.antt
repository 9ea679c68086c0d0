-- ===== src/Benchmarks/Failures.antt =====
-- record_failure and recover_stale of app/benchmarks/repositories.py.
use codejudge_ai.Base.{
  ℕ, ◌+◌, Bool, true, false, not, ◌&&◌, String, Option, none, some, List, [], ◌∷◌, filter, take,
  ltb, is_some, if◌then◌else◌,
}
use codejudge_ai.Base.Errors.{Result, ok, ◌>>=◌}
use codejudge_ai.Base.Table.{find}
use codejudge_ai.Benchmarks.Model.{
  BenchmarkSample, BenchmarkSampleStatus, BenchmarkTables, sample_key, artifact_key, is_active,
  update_sample, add_event, persistent,
}
use codejudge_ai.Benchmarks.Runs.{finish_run_if_terminal}
use codejudge_ai.Benchmarks.Samples.{owns_lease}
use codejudge_ai.Jobs.Retry.{retry_delay_seconds}
use codejudge_ai.Jobs.Transaction.{Link}

-- the fields that every failed attempt writes
abbrev pub released : BenchmarkSample → String → ℕ → BenchmarkSample
released sample code now = record sample {
  failure_code = some code;
  worker_id = none;
  lease_expires_at = none;
  updated_at = now;
}

-- GENERATED if the sample has its artifact, QUEUED otherwise
abbrev pub requeued : BenchmarkSample → Bool → BenchmarkSample
requeued sample has_artifact = record sample {
  status = if has_artifact then BenchmarkSampleStatus.generated else BenchmarkSampleStatus.queued;
}

abbrev pub given_up : BenchmarkSample → BenchmarkSampleStatus → ℕ → BenchmarkSample
given_up sample status now = record sample { status = status; completed_at = some now }

-- the branch that record_failure and recover_stale share, of a sample that is released already;
-- `end_status` is the terminal status when no attempt is left
unfoldable pub retry_or_end :
    Bool
    → BenchmarkSampleStatus
    → BenchmarkSample
    → ℕ
    → ℕ
    → ℕ
    → BenchmarkTables
    → Result (BenchmarkSampleStatus × BenchmarkTables)
retry_or_end retryable end_status sample now base event_id db =
    if retryable && ltb sample.attempt_count sample.plan.max_attempts
    then (retry_delay_seconds sample.attempt_count base >>= λ delay.
        add_event event_id (sample_key sample) now (now + delay) db >>= λ announced.
        let row = requeued sample (is_some (find artifact_key (sample_key sample) db.artifacts)) in
        update_sample row announced >>= λ updated. ok (row.status, updated))
    else (update_sample (given_up sample end_status now) db >>= λ updated.
        ok (end_status, (finish_run_if_terminal sample.plan.benchmark_run_id now updated).1))

unfoldable pub fail_sample :
    BenchmarkSample
    → String
    → String
    → Bool
    → Bool
    → ℕ
    → ℕ
    → ℕ
    → BenchmarkTables
    → Result (Option BenchmarkSampleStatus × BenchmarkTables)
fail_sample sample worker_id code generation retryable now base event_id db =
    if not (owns_lease sample worker_id now)
    then ok (none, db)
    else (retry_or_end retryable
          (if generation
            then BenchmarkSampleStatus.generation_failed
            else BenchmarkSampleStatus.evaluation_failed)
          (released sample code now) now base event_id db
        >>= λ r. ok (some r.0, r.1))

unfoldable pub record_failure :
    Link
    → ℕ
    → String
    → String
    → (generation retryable : Bool) → ℕ
    → ℕ
    → ℕ
    → BenchmarkTables
    → Result (Option BenchmarkSampleStatus) × BenchmarkTables
record_failure link sample_id worker_id code generation retryable now base event_id =
    persistent link λ db. elim (find sample_key sample_id db.samples) [
      | none ↦ ok (none, db)
      | some sample ↦ fail_sample sample worker_id code generation retryable now base event_id db
    ]

abbrev pub expired : Option ℕ → ℕ → Bool
expired none now = false
expired (some expires_at) now = ltb expires_at now

-- the SELECT of recover_stale: `locked` are the rows that other transactions hold
unfoldable pub stale_samples : (ℕ → Bool) → ℕ → ℕ → BenchmarkTables → List BenchmarkSample
stale_samples locked now limit db = take limit (
    filter
      (λ s. is_active s.status && expired s.lease_expires_at now && not (locked (sample_key s)))
      db.samples)

unfoldable pub recover_sample :
    BenchmarkSample → ℕ → ℕ → ℕ → BenchmarkTables → Result BenchmarkTables
recover_sample sample now base event_id db =
    retry_or_end true BenchmarkSampleStatus.skipped (released sample "worker_lease_expired" now) now
      base event_id db
    >>= λ r. ok r.1

-- `uuid` yields the ids of the new events
unfoldable pub recover_samples :
    (ℕ → ℕ) → ℕ → ℕ → ℕ → List BenchmarkSample → BenchmarkTables → Result (ℕ × BenchmarkTables)
recover_samples uuid now base recovered [] db = ok (recovered, db)
recover_samples uuid now base recovered (sample ∷ samples) db =
    recover_sample sample now base (uuid recovered) db >>= λ db'.
    recover_samples uuid now base (recovered + 1) samples db'

unfoldable pub recover_stale :
    Link → (ℕ → ℕ) → (ℕ → Bool) → ℕ → ℕ → ℕ → BenchmarkTables → Result ℕ × BenchmarkTables
recover_stale link uuid locked now base limit =
    persistent link λ db. recover_samples uuid now base 0 (stale_samples locked now limit db) db
