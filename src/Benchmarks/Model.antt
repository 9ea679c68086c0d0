-- ===== src/Benchmarks/Model.antt =====
-- The rows of the benchmark tables (app/benchmarks/models.py, app/db/models.py), and how a
-- transaction on them answers.
use codejudge_ai.Base.{ℕ, Bool, true, false, String, Option, none, some, List, leb, if◌then◌else◌}
use codejudge_ai.Base.Errors.{Result, ok, raise, persistence_error, integrity_error}
use codejudge_ai.Base.Table.{put, insert_row}
use codejudge_ai.Jobs.Model.{OutboxEvent, event_key}
use codejudge_ai.Jobs.Transaction.{Link, up, down, lost_reply, as_persistence}

pub data BenchmarkRunStatus : Type 0 where
  queued running completed partial failed : BenchmarkRunStatus

pub data BenchmarkSampleStatus : Type 0 where
  queued generating generated evaluating : BenchmarkSampleStatus
  completed generation_failed evaluation_failed skipped : BenchmarkSampleStatus

-- TERMINAL_SAMPLE_STATUSES
abbrev pub is_terminal : BenchmarkSampleStatus → Bool
is_terminal completed = true
is_terminal generation_failed = true
is_terminal evaluation_failed = true
is_terminal skipped = true
is_terminal _ = false

-- QUEUED or GENERATED
abbrev pub is_pending : BenchmarkSampleStatus → Bool
is_pending queued = true
is_pending generated = true
is_pending _ = false

-- GENERATING or EVALUATING
abbrev pub is_active : BenchmarkSampleStatus → Bool
is_active generating = true
is_active evaluating = true
is_active _ = false

abbrev pub is_generating : BenchmarkSampleStatus → Bool
is_generating generating = true
is_generating _ = false

abbrev pub is_completed : BenchmarkSampleStatus → Bool
is_completed completed = true
is_completed _ = false

abbrev pub is_skipped : BenchmarkSampleStatus → Bool
is_skipped skipped = true
is_skipped _ = false

-- what was planned of a sample and never changes
pub record Plan : Type 0 where
  pub benchmark_sample_id : ℕ
  pub benchmark_run_id : ℕ
  pub model_config_id : ℕ
  pub evaluation_id : ℕ
  pub task_id : String
  pub task_version : String
  pub task_fingerprint : String
  pub tests_fingerprint : String
  pub task_weight : ℕ
  pub sample_index : ℕ
  pub max_attempts : ℕ
  pub created_at : ℕ

pub record BenchmarkSample : Type 0 where
  pub plan : Plan
  pub status : BenchmarkSampleStatus
  pub attempt_count : ℕ
  pub worker_id : Option String
  pub lease_expires_at : Option ℕ
  pub failure_code : Option String
  pub evaluation_duration_seconds : Option ℕ
  pub total_duration_seconds : Option ℕ
  pub updated_at : ℕ
  pub completed_at : Option ℕ

pub record GeneratedSolutionArtifact : Type 0 where
  pub benchmark_sample_id : ℕ
  pub source : String
  pub source_hash : String
  pub source_size : ℕ
  pub generation_attempts : ℕ
  pub provider_response_id : Option String
  pub input_tokens : Option ℕ
  pub output_tokens : Option ℕ
  pub generation_latency_ms : ℕ
  pub pricing_version : Option String
  pub generation_cost : Option ℕ
  pub currency : Option String
  pub created_at : ℕ

-- the columns of a stored evaluation that the repository reads
pub record Evaluation : Type 0 where
  pub evaluation_id : ℕ
  pub source_hash : String
  pub duration_seconds : ℕ

-- the columns of a run that the lifecycle changes
pub record BenchmarkRun : Type 0 where
  pub benchmark_run_id : ℕ
  pub created_at : ℕ
  pub started_at : Option ℕ
  pub completed_at : Option ℕ
  pub status : BenchmarkRunStatus

pub record BenchmarkTables : Type 0 where
  pub samples : List BenchmarkSample
  pub artifacts : List GeneratedSolutionArtifact
  pub evaluations : List Evaluation
  pub runs : List BenchmarkRun
  pub outbox : List OutboxEvent

abbrev pub sample_key : BenchmarkSample → ℕ
sample_key sample = sample.plan.benchmark_sample_id

abbrev pub artifact_key : GeneratedSolutionArtifact → ℕ
artifact_key artifact = artifact.benchmark_sample_id

abbrev pub evaluation_key : Evaluation → ℕ
evaluation_key evaluation = evaluation.evaluation_id

abbrev pub run_key : BenchmarkRun → ℕ
run_key run = run.benchmark_run_id

-- the UPDATE of a sample, with the CHECK of its attempts
unfoldable pub update_sample : BenchmarkSample → BenchmarkTables → Result BenchmarkTables
update_sample sample db =
    if leb sample.attempt_count sample.plan.max_attempts
    then ok (record db { samples = put sample_key sample db.samples })
    else raise integrity_error

-- `_outbox_record` and the INSERT of the event
unfoldable pub add_event : ℕ → ℕ → ℕ → ℕ → BenchmarkTables → Result BenchmarkTables
add_event event_id sample_id created_at next_attempt_at db =
    elim (insert_row event_key
      (record {
        event_id = event_id;
        event_type = "benchmark.sample.requested";
        aggregate_id = sample_id;
        created_at = created_at;
        published_at = none;
        attempt_count = 0;
        next_attempt_at = next_attempt_at;
        last_error_code = none;
      })
      db.outbox) [ none ↦ raise integrity_error | some rows ↦ ok (record db { outbox = rows }) ]

-- commit or roll back, with every SQLAlchemyError turned into a PersistenceError
unfoldable pub settled {ℓ} :
    {A : Type ℓ} → Result (A × BenchmarkTables) → BenchmarkTables → Result A × BenchmarkTables
settled (ok (a, db')) db = (ok a, db')
settled (raise e) db = (as_persistence (raise e), db)

-- the whole method, however the database answers
unfoldable pub persistent {ℓ} :
    {A : Type ℓ}
    → Link
    → (BenchmarkTables → Result (A × BenchmarkTables))
    → BenchmarkTables
    → Result A × BenchmarkTables
persistent up body db = settled (body db) db
persistent down body db = (raise persistence_error, db)
persistent lost_reply body db = (raise persistence_error, (settled (body db) db).1)
