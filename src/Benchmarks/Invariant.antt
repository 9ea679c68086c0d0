-- ===== src/Benchmarks/Invariant.antt =====
-- What holds of the benchmark's samples between calls.
pub mod Rules
pub mod Calls
pub mod Histories
use codejudge_ai.Base.{ℕ, ◌≤◌, ◌<◌, ◌≡◌, Bool, true, false, Option, List, All, Any, is_some}
use codejudge_ai.Base.Table.{find, Distinct}
use codejudge_ai.Benchmarks.Model.{
  BenchmarkSample, BenchmarkSampleStatus, BenchmarkTables, GeneratedSolutionArtifact, sample_key,
  artifact_key, is_pending, is_active, is_terminal,
}
use codejudge_ai.Jobs.Model.{OutboxEvent}

-- The columns of a sample agree with its status, and its attempts with their limit.
pub record IsSound (sample : BenchmarkSample) : Type 0 where
  pub attempts : sample.attempt_count ≤ sample.plan.max_attempts
  pub attempts_left :
      is_pending sample.status ≡ true → sample.attempt_count < sample.plan.max_attempts
  pub attempted : is_active sample.status ≡ true → 0 < sample.attempt_count
  pub owned : is_some sample.worker_id ≡ is_active sample.status
  pub leased : is_some sample.lease_expires_at ≡ is_active sample.status
  pub ended : is_some sample.completed_at ≡ is_terminal sample.status

-- the stage of a sample that is not terminal, and whether it has its artifact there
abbrev pub before_artifact : BenchmarkSampleStatus → Bool
before_artifact BenchmarkSampleStatus.queued = true
before_artifact BenchmarkSampleStatus.generating = true
before_artifact _ = false

abbrev pub after_artifact : BenchmarkSampleStatus → Bool
after_artifact BenchmarkSampleStatus.generated = true
after_artifact BenchmarkSampleStatus.evaluating = true
after_artifact _ = false

-- A sample is at the stages before its artifact exactly while it has none.
abbrev pub IsStaged : List GeneratedSolutionArtifact → BenchmarkSample → Type 0
IsStaged artifacts sample =
    (before_artifact sample.status ≡ true
      → is_some (find artifact_key (sample_key sample) artifacts) ≡ false)
    × (after_artifact sample.status ≡ true
        → is_some (find artifact_key (sample_key sample) artifacts) ≡ true)

-- A sample that waits for a worker has an event in the outbox.
abbrev pub IsCovered : List OutboxEvent → BenchmarkSample → Type 0
IsCovered outbox sample =
    is_pending sample.status ≡ true → Any (λ event. event.aggregate_id ≡ sample_key sample) outbox

pub record IsConsistent (db : BenchmarkTables) : Type 0 where
  pub distinct : Distinct sample_key db.samples
  pub sound : All IsSound db.samples
  pub staged : All (IsStaged db.artifacts) db.samples
  pub covered : All (IsCovered db.outbox) db.samples
