-- ===== src/Benchmarks/Worker/Process.antt =====
-- `process_message`, `_run_with_lease` and `_process_claimed` of app/benchmarks/worker.py: the calls
-- of the repository that they make, with what others (and this worker's heartbeat) commit between.
use Prim.Native.String.{◌++◌ as append}
use codejudge_ai.Benchmarks.Worker.Surroundings.{
  BenchmarkWorker, RunIdentity, ResolvedTask, StoredSnapshot, CandidateRequest, Surroundings,
}
use codejudge_ai.Base.{
  ℕ, Bool, true, false, not, ◌||◌, String, Option, none, some, List, [], ◌∷◌, any, str_eq, is_some,
  if◌then◌else◌,
}
use codejudge_ai.Base.Errors.{
  Error, Result, ok, raise, raise_if, ◌>>=◌, ◌>>◌, provider_error, infrastructure,
  persistence_error,
}
use codejudge_ai.Base.Table.{find}
use codejudge_ai.Base.Text.{codes, same_text}
use codejudge_ai.Benchmarks.Reliability.{encode_failure_diagnostic}
use codejudge_ai.Benchmarks.Failures.{record_failure}
use codejudge_ai.Benchmarks.Generation.{BenchmarkModelConfig, generate}
use codejudge_ai.Benchmarks.Model.{
  BenchmarkSample, BenchmarkSampleStatus, BenchmarkTables, GeneratedSolutionArtifact, sample_key,
  artifact_key, persistent,
}
use codejudge_ai.Benchmarks.Samples.{store_artifact, complete}
use codejudge_ai.Benchmarks.Worker.Lease.{Confirmed, renew_before_expiry}
use codejudge_ai.Jobs.Transaction.{Link}

-- get_sample and get_artifact, which read a row by its key
unfoldable pub get_sample : Link → ℕ → BenchmarkTables → Result (Option BenchmarkSample)
get_sample link sample_id db =
    (persistent link (λ d. ok (find sample_key sample_id d.samples, d)) db).0

unfoldable pub get_artifact : Link → ℕ → BenchmarkTables → Result (Option GeneratedSolutionArtifact)
get_artifact link sample_id db =
    (persistent link (λ d. ok (find artifact_key sample_id d.artifacts, d)) db).0

-- the codes that `_generation_failure_code` leaves as they are
abbrev pub known_failure_codes : List String
known_failure_codes =
    "provider_timeout" ∷ "provider_unavailable" ∷ "provider_rate_limited" ∷ "provider_unauthorized"
    ∷ "provider_forbidden" ∷ "provider_not_found" ∷ "provider_error" ∷ "provider_refusal"
    ∷ "malformed_output" ∷ "malformed_provider_response" ∷ "output_too_large"
    ∷ "provider_request_rejected" ∷ "provider_not_configured" ∷ "empty_output" ∷ []

unfoldable pub generation_failure_code : String → String
unfolding any
generation_failure_code code =
    if any (str_eq code) known_failure_codes
    then code
    else if str_eq code "provider_output_too_large"
    then "output_too_large"
    else "provider_error"

-- `encode_failure_diagnostic` as a text: it is the code, or the code, two colons and the detail
unfoldable pub diagnostic : String → Option String → String
diagnostic code none = code
diagnostic code (some detail) =
    if same_text (encode_failure_diagnostic (codes code) (some (codes detail))) (codes code)
    then code
    else append code (append "::" detail)

unfoldable pub candidate_evaluation_request :
    BenchmarkSample → String → ResolvedTask → CandidateRequest
candidate_evaluation_request sample source task = record {
  task_id = sample.plan.task_id;
  language = "python";
  code = source;
  evaluation_id = sample.plan.evaluation_id;
  created_at = sample.plan.created_at;
  task_revision = task.revision;
}

abbrev pub Handled : Type 0
Handled = Result Bool × BenchmarkTables

module _ (w : BenchmarkWorker) (s : Surroundings) (claimed : BenchmarkSample) where
  -- the run and the configuration, or EvaluationInfrastructureError
  unfoldable pub both_found :
      Option RunIdentity → Option BenchmarkModelConfig → Result (RunIdentity × BenchmarkModelConfig)
  both_found (some run) (some config) = ok (run, config)
  both_found _ _ = raise (infrastructure "benchmark_identity_unavailable")

  abbrev pub is_other_task : ResolvedTask → Bool
  is_other_task task =
      not (str_eq task.specification.version claimed.plan.task_version)
      || not (str_eq task.tests_fingerprint claimed.plan.tests_fingerprint)
      || not (str_eq task.task_fingerprint claimed.plan.task_fingerprint)

  -- the checks before the artifact is looked up
  unfoldable pub identified : Result (BenchmarkModelConfig × ResolvedTask)
  unfolding both_found
  identified = do
    run ← s.run_answer
    config ← s.config_answer
    found ← both_found run config
    current_evaluator ← s.evaluator_fingerprint found.0
    raise_if (not (str_eq current_evaluator found.0.evaluator_fingerprint))
        (infrastructure "benchmark_evaluator_identity_mismatch")
    task ← s.resolve found.0 claimed.plan.task_id
    raise_if (is_other_task task) (infrastructure "benchmark_task_identity_mismatch")
    ok (found.1, task)

  abbrev pub is_other_snapshot : GeneratedSolutionArtifact → StoredSnapshot → Bool
  is_other_snapshot artifact snapshot =
      not (str_eq snapshot.evaluation.source_hash artifact.source_hash)
      || not (str_eq snapshot.task_fingerprint claimed.plan.task_fingerprint)
      || not (str_eq snapshot.tests_fingerprint claimed.plan.tests_fingerprint)

  -- the stored snapshot, if it is of this artifact and task, or a new one
  unfoldable pub checked_snapshot :
      ResolvedTask → GeneratedSolutionArtifact → Option StoredSnapshot → Result StoredSnapshot
  unfolding candidate_evaluation_request
  checked_snapshot task artifact none =
      s.evaluate_snapshot (candidate_evaluation_request claimed artifact.source task)
  checked_snapshot task artifact (some snapshot) = do
    raise_if (is_other_snapshot artifact snapshot)
        (infrastructure "benchmark_evaluation_identity_mismatch")
    ok snapshot

  unfoldable pub snapshot_of : ResolvedTask → GeneratedSolutionArtifact → Result StoredSnapshot
  unfolding checked_snapshot
  snapshot_of task artifact = do found ← s.snapshot_answer; checked_snapshot task artifact found

  -- `record_failure(...) is not None`
  unfoldable pub recorded : Result (Option BenchmarkSampleStatus) × BenchmarkTables → Handled
  recorded (ok status, db) = (ok (is_some status), db)
  recorded (raise e, db) = (raise e, db)

  unfoldable pub failure : String → (generation retryable : Bool) → BenchmarkTables → Handled
  unfolding recorded
  failure code generation retryable db = recorded (
      record_failure s.failure_link (sample_key claimed) w.worker_id code generation retryable
        s.failure_time w.retry_base_delay_seconds s.event_id (s.before_failure db))

  -- the `except` clauses
  unfoldable pub handled : Error → BenchmarkTables → Handled
  unfolding failure generation_failure_code diagnostic
  handled (provider_error code transient detail_code) db =
      failure (diagnostic (generation_failure_code code) detail_code) true transient db
  handled (infrastructure message) db = failure message false true db
  handled persistence_error db = (ok false, db)
  handled e db = failure (append "worker_" (s.class_name e)) false false db

  -- the answer of complete
  unfoldable pub after_complete : Result Bool × BenchmarkTables → Handled
  unfolding handled
  after_complete (ok transition_recorded, db) = (ok transition_recorded, db)
  after_complete (raise e, db) = handled e db

  unfoldable pub with_snapshot : Result StoredSnapshot → BenchmarkTables → Handled
  unfolding handled after_complete
  with_snapshot (raise e) db = handled e db
  with_snapshot (ok snapshot) db = after_complete (
      complete s.complete_link (sample_key claimed) w.worker_id snapshot.evaluation s.complete_time
        s.total_duration (s.before_complete db))

  -- the answer of store_artifact
  unfoldable pub after_store :
      ResolvedTask → GeneratedSolutionArtifact → Result Bool × BenchmarkTables → Handled
  unfolding handled with_snapshot snapshot_of
  after_store task artifact (raise e, db) = handled e db
  after_store task artifact (ok false, db) = (ok false, db)
  after_store task artifact (ok true, db) = with_snapshot (snapshot_of task artifact) db

  unfoldable pub with_generated :
      ResolvedTask → Result GeneratedSolutionArtifact → BenchmarkTables → Handled
  unfolding handled after_store
  with_generated task (raise e) db = handled e db
  with_generated task (ok artifact) db = after_store task artifact (
      store_artifact s.store_link (sample_key claimed) w.worker_id artifact s.store_time
        (s.before_store db))

  -- the answer of get_artifact
  unfoldable pub with_artifact :
      BenchmarkModelConfig
      → ResolvedTask
      → Result (Option GeneratedSolutionArtifact)
      → BenchmarkTables
      → Handled
  unfolding handled with_snapshot snapshot_of with_generated generate
  with_artifact config task (raise e) db = handled e db
  with_artifact config task (ok (some artifact)) db = with_snapshot (snapshot_of task artifact) db
  with_artifact config task (ok none) db =
      with_generated task
        (generate w.tools w.max_code_size s.created_at claimed config w.providers
          task.specification)
        db

  unfoldable pub with_identity :
      Result (BenchmarkModelConfig × ResolvedTask) → BenchmarkTables → Handled
  unfolding handled with_artifact get_artifact
  with_identity (raise e) db = handled e db
  with_identity (ok (config, task)) db =
      with_artifact config task (get_artifact s.artifact_link (sample_key claimed) db) db

  unfoldable pub process_claimed : BenchmarkTables → Handled
  unfolding with_identity identified
  process_claimed db = with_identity identified (s.before_artifact db)

  -- the first to finish decides, and an exception of a cancelled processing is not looked at
  unfoldable pub first_finished : Handled → Handled
  first_finished (answer, db) = (if s.heartbeat_first then ok false else answer, db)

  unfoldable pub after_confirmation : Confirmed → Handled
  unfolding first_finished process_claimed
  after_confirmation (none, db) = (ok false, db)
  after_confirmation (some state, db) = first_finished (process_claimed db)

  unfoldable pub run_with_lease : BenchmarkTables → Handled
  unfolding after_confirmation renew_before_expiry
  run_with_lease db = elim claimed.lease_expires_at [
    | none ↦ (ok false, db)
    | some lease_expires_at ↦ after_confirmation (
        renew_before_expiry (sample_key claimed) w.worker_id w.lease_seconds s.first_renewal
          lease_expires_at 0 db)
  ]
