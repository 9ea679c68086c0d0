-- ===== src/Jobs/Model.antt =====
-- The rows of app/db/models.py that the jobs use, and the database that holds them. A UUID is its
-- 128-bit number, a time its microseconds since the epoch, a JSON column its canonical text.
use codejudge_ai.Base.{ℕ, Bool, true, false, String, Option, List, ◌&&◌, ltb, leb, if◌then◌else◌}
use codejudge_ai.Jobs.State.{JobStatus, is_completed}

pub record ExecutionEnvironmentSnapshot : Type 0 where
  pub backend : String
  pub sandbox_image : Option String
  pub sandbox_image_id : Option String

-- The columns that are written once, when the job is created.
pub record Submission : Type 0 where
  pub evaluation_id : ℕ
  pub created_at : ℕ
  pub task_id : String
  pub task_version : String
  pub task_fingerprint : String
  pub tests_fingerprint : String
  pub language : String
  pub source_text : String
  pub source_hash : String
  pub source_size : ℕ
  pub request_fingerprint : String
  pub idempotency_key : Option String
  pub max_attempts : ℕ
  pub expected_execution : ExecutionEnvironmentSnapshot
  pub expected_analyzer_versions : List (String × String)
  pub expected_scoring_policy_version : String
  pub expected_codejudge_version : String
  pub expected_ai_identity : String

-- EvaluationJobRecord, and the domain model EvaluationJob, which has the same fields.
pub record EvaluationJob : Type 0 where
  pub submission : Submission
  pub open submission use *
  pub updated_at : ℕ
  pub status : JobStatus
  pub attempt_count : ℕ
  pub queued_at : ℕ
  pub started_at : Option ℕ
  pub completed_at : Option ℕ
  pub failed_at : Option ℕ
  pub next_attempt_at : Option ℕ
  pub worker_id : Option String
  pub lease_expires_at : Option ℕ
  pub last_error_category : Option String
  pub last_error_code : Option String
  pub snapshot_created : Bool

-- The identity of an EvaluationSnapshot and what the jobs read of its content.
pub record EvaluationSnapshot : Type 0 where
  pub evaluation_id : ℕ
  pub created_at : ℕ
  pub completed_at : ℕ
  pub duration : ℕ
  pub task_id : String
  pub task_version : String
  pub source_hash : String
  pub final_score : ℕ

pub record OutboxEvent : Type 0 where
  pub event_id : ℕ
  pub event_type : String
  pub aggregate_id : ℕ
  pub created_at : ℕ
  pub published_at : Option ℕ
  pub attempt_count : ℕ
  pub next_attempt_at : ℕ
  pub last_error_code : Option String

-- The tables evaluation_jobs, evaluations and outbox_events.
pub record Database : Type 0 where
  pub jobs : List EvaluationJob
  pub evaluations : List EvaluationSnapshot
  pub outbox : List OutboxEvent

abbrev pub job_key : EvaluationJob → ℕ
job_key job = job.evaluation_id

abbrev pub evaluation_key : EvaluationSnapshot → ℕ
evaluation_key snapshot = snapshot.evaluation_id

abbrev pub event_key : OutboxEvent → ℕ
event_key event = event.event_id

abbrev pub same_truth : Bool → Bool → Bool
same_truth true b = b
same_truth false b = if b then false else true

-- The CHECK constraints ck_evaluation_jobs_source_size_positive, _attempts and _snapshot_state.
-- Those on the status and on the length of a hash hold of every value that the program writes.
unfoldable pub job_checks : EvaluationJob → Bool
job_checks job =
    ltb 0 job.source_size
    && (ltb 0 job.max_attempts
        && (leb job.attempt_count job.max_attempts
            && same_truth (is_completed job.status) job.snapshot_created))
