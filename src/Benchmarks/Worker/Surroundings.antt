-- ===== src/Benchmarks/Worker/Surroundings.antt =====
-- What a message of BenchmarkWorker (app/benchmarks/worker.py) is handled with, and what happens
-- around it.
use codejudge_ai.Base.{ℕ, Bool, String, Option, List}
use codejudge_ai.Base.Errors.{Error, Result}
use codejudge_ai.Ai.Models.{Task}
use codejudge_ai.Benchmarks.Generation.{Tools, LlmProvider, BenchmarkModelConfig}
use codejudge_ai.Benchmarks.Model.{BenchmarkTables, Evaluation}
use codejudge_ai.Benchmarks.Worker.Lease.{Round}
use codejudge_ai.Jobs.Transaction.{Link}

pub record BenchmarkWorker : Type 0 where
  pub worker_id : String
  pub providers : String → Option LlmProvider
  pub max_code_size : ℕ
  pub lease_seconds : ℕ
  pub retry_base_delay_seconds : ℕ
  pub tools : Tools

-- the columns of a run that its worker reads
pub record RunIdentity : Type 0 where
  pub dataset_id : String
  pub dataset_version : String
  pub evaluator_fingerprint : String

-- a task that the datasets resolve, with its present fingerprints
pub record ResolvedTask : Type 0 where
  pub revision : ℕ
  pub specification : Task
  pub tests_fingerprint : String
  pub task_fingerprint : String

-- what the worker reads of a stored evaluation
pub record StoredSnapshot : Type 0 where
  pub evaluation : Evaluation
  pub task_fingerprint : String
  pub tests_fingerprint : String

-- EvaluationRequest with the arguments that the worker adds
pub record CandidateRequest : Type 0 where
  pub task_id : String
  pub language : String
  pub code : String
  pub evaluation_id : ℕ
  pub created_at : ℕ
  pub task_revision : ℕ

-- What happens around one message: how the database, the datasets, the evaluation and the queue
-- answer, the clock at each call, what others commit before it, and whether the heartbeat ends
-- first; `class_name` is in lower case. A processing that is cancelled then is one whose next call of the repository is not made
-- (`down`) or whose answer is not seen (`lost_reply`).
pub record Surroundings : Type 0 where
  pub lookup_link : Link
  pub claim_link : Link
  pub artifact_link : Link
  pub store_link : Link
  pub complete_link : Link
  pub failure_link : Link
  pub claim_time : ℕ
  pub store_time : ℕ
  pub complete_time : ℕ
  pub failure_time : ℕ
  pub created_at : ℕ
  pub total_duration : ℕ
  pub event_id : ℕ
  pub first_renewal : List Round
  pub run_answer : Result (Option RunIdentity)
  pub config_answer : Result (Option BenchmarkModelConfig)
  pub evaluator_fingerprint : RunIdentity → Result String
  pub resolve : RunIdentity → String → Result ResolvedTask
  pub snapshot_answer : Result (Option StoredSnapshot)
  pub evaluate_snapshot : CandidateRequest → Result StoredSnapshot
  pub class_name : Error → String
  pub heartbeat_first : Bool
  pub queue_up : Bool
  pub before_claim : BenchmarkTables → BenchmarkTables
  pub before_artifact : BenchmarkTables → BenchmarkTables
  pub before_store : BenchmarkTables → BenchmarkTables
  pub before_complete : BenchmarkTables → BenchmarkTables
  pub before_failure : BenchmarkTables → BenchmarkTables
