-- ===== src/Benchmarks/Worker/Recorded.antt =====
-- When a processing says that it recorded a transition, nobody works on the sample any more.
use codejudge_ai.Base.{ℕ, ◌≡◌, refl, ap, Bool, true, false, String, Option, none, some, if-cases}
use codejudge_ai.Base.Errors.{
  Error, Result, ok, raise, provider_error, infrastructure, persistence_error,
}
use codejudge_ai.Benchmarks.Answers.Completions.{complete-IsReleased}
use codejudge_ai.Benchmarks.Answers.Failures.{record_failure-IsReleased}
use codejudge_ai.Benchmarks.Answers.{IsReleased}
use codejudge_ai.Benchmarks.Failures.{record_failure}
use codejudge_ai.Benchmarks.Samples.{complete}
use codejudge_ai.Benchmarks.Generation.{BenchmarkModelConfig}
use codejudge_ai.Benchmarks.Model.{
  BenchmarkSample, BenchmarkSampleStatus, BenchmarkTables, GeneratedSolutionArtifact, sample_key,
}
use codejudge_ai.Benchmarks.Worker.Lease.{Confirmed, renew_before_expiry}
use codejudge_ai.Benchmarks.Worker.Process.{
  Handled, failure, recorded, handled, after_complete, with_snapshot, snapshot_of, after_store,
  with_generated, with_artifact, with_identity, process_claimed, first_finished, after_confirmation,
  run_with_lease,
}
use codejudge_ai.Benchmarks.Worker.Surroundings.{
  BenchmarkWorker, Surroundings, ResolvedTask, StoredSnapshot,
}

module _ (w : BenchmarkWorker) (s : Surroundings) (claimed : BenchmarkSample) where
  -- what true promises
  abbrev pub Releases : Handled → Type 0
  Releases answer = answer.0 ≡ ok true → IsReleased answer.1 (sample_key claimed)

  recorded-Releases :
      (answer : Result (Option BenchmarkSampleStatus) × BenchmarkTables)
      → ((status : BenchmarkSampleStatus)
          → answer.0 ≡ ok (some status)
          → IsReleased answer.1 (sample_key claimed))
      → Releases (recorded w s claimed answer)
  unfolding recorded
  recorded-Releases (ok none, db) f h = absurd (cc)
  recorded-Releases (ok (some status), db) f h = f status refl
  recorded-Releases (raise e, db) f h = absurd (cc)

  failure-Releases :
      (code : String) (generation retryable : Bool) (db : BenchmarkTables)
      → Releases (failure w s claimed code generation retryable db)
  unfolding failure
  failure-Releases code generation retryable db =
      let before = s.before_failure db in
      let call =
        record_failure s.failure_link (sample_key claimed) w.worker_id code generation retryable
          s.failure_time w.retry_base_delay_seconds s.event_id before in
      recorded-Releases call (λ status e.
        record_failure-IsReleased s.failure_link (sample_key claimed) w.worker_id code generation
          retryable s.failure_time w.retry_base_delay_seconds s.event_id status before call.1
          (ap (λ a. (a, call.1)) e))

  handled-Releases : (e : Error) (db : BenchmarkTables) → Releases (handled w s claimed e db)
  unfolding handled
  handled-Releases (provider_error code transient detail_code) db h = failure-Releases _ _ _ db h
  handled-Releases (infrastructure message) db h = failure-Releases message false true db h
  handled-Releases persistence_error db h = absurd (cc)
  handled-Releases _ db h = failure-Releases _ _ _ db h

  after_complete-Releases :
      (answer : Result Bool × BenchmarkTables)
      → Releases answer
      → Releases (after_complete w s claimed answer)
  unfolding after_complete
  after_complete-Releases (ok recorded, db) f = f
  after_complete-Releases (raise e, db) f = handled-Releases e db

  with_snapshot-Releases :
      (snapshot : Result StoredSnapshot) (db : BenchmarkTables)
      → Releases (with_snapshot w s claimed snapshot db)
  unfolding with_snapshot
  with_snapshot-Releases (raise e) db = handled-Releases e db
  with_snapshot-Releases (ok snapshot) db =
      let before = s.before_complete db in
      let call =
        complete s.complete_link (sample_key claimed) w.worker_id snapshot.evaluation
          s.complete_time s.total_duration before in
      after_complete-Releases call (λ e.
        complete-IsReleased s.complete_link (sample_key claimed) w.worker_id snapshot.evaluation
          s.complete_time s.total_duration before call.1 (ap (λ a. (a, call.1)) e))

  after_store-Releases :
      (task : ResolvedTask) (artifact : GeneratedSolutionArtifact)
      (answer : Result Bool × BenchmarkTables)
      → Releases (after_store w s claimed task artifact answer)
  unfolding after_store
  after_store-Releases task artifact (raise e, db) h = handled-Releases e db h
  after_store-Releases task artifact (ok false, db) h = absurd (cc)
  after_store-Releases task artifact (ok true, db) h =
      with_snapshot-Releases (snapshot_of w s claimed task artifact) db h

  with_generated-Releases :
      (task : ResolvedTask) (generated : Result GeneratedSolutionArtifact) (db : BenchmarkTables)
      → Releases (with_generated w s claimed task generated db)
  unfolding with_generated
  with_generated-Releases task (raise e) db = handled-Releases e db
  with_generated-Releases task (ok artifact) db = after_store-Releases task artifact _

  with_artifact-Releases :
      (config : BenchmarkModelConfig) (task : ResolvedTask)
      (found : Result (Option GeneratedSolutionArtifact)) (db : BenchmarkTables)
      → Releases (with_artifact w s claimed config task found db)
  unfolding with_artifact
  with_artifact-Releases config task (raise e) db = handled-Releases e db
  with_artifact-Releases config task (ok (some artifact)) db =
      with_snapshot-Releases (snapshot_of w s claimed task artifact) db
  with_artifact-Releases config task (ok none) db = with_generated-Releases task _ db

  with_identity-Releases :
      (identity : Result (BenchmarkModelConfig × ResolvedTask)) (db : BenchmarkTables)
      → Releases (with_identity w s claimed identity db)
  unfolding with_identity
  with_identity-Releases (raise e) db = handled-Releases e db
  with_identity-Releases (ok (config, task)) db = with_artifact-Releases config task _ db

  first_finished-Releases :
      (answer : Handled) → Releases answer → Releases (first_finished w s claimed answer)
  unfolding first_finished
  first_finished-Releases (answer, db) f h =
      if-cases s.heartbeat_first (ok false) answer (ok true) h (λ _ bad. absurd (cc)) (λ _ e. f e)

  after_confirmation-Releases :
      (confirmed : Confirmed) → Releases (after_confirmation w s claimed confirmed)
  unfolding after_confirmation process_claimed
  after_confirmation-Releases (none, db) h = absurd (cc)
  after_confirmation-Releases (some state, db) h =
      first_finished-Releases (process_claimed w s claimed db)
        (with_identity-Releases _ (s.before_artifact db)) h

  leased-Releases :
      (expires : Option ℕ) (db : BenchmarkTables)
      → Releases (elim expires as (λ _. Handled) [
        | none ↦ (ok false, db)
        | some lease_expires_at ↦ after_confirmation w s claimed (
            renew_before_expiry
              (sample_key claimed)
              w.worker_id
              w.lease_seconds
              s.first_renewal
              lease_expires_at
              0
              db)
      ])
  leased-Releases none db h = absurd (cc)
  leased-Releases (some expires) db h = after_confirmation-Releases _ h

  -- When the processing of a claimed sample answers that a transition was recorded, so that its
  -- message will be acknowledged, the sample in the tables is neither generating nor evaluating.
  pub run_with_lease-Releases : (db : BenchmarkTables) → Releases (run_with_lease w s claimed db)
  unfolding run_with_lease
  run_with_lease-Releases db = leased-Releases claimed.lease_expires_at db
