-- ===== src/Benchmarks/Worker/Histories.antt =====
-- Whatever a worker does with a message, the tables go through a history of the repository's calls.
use codejudge_ai.Base.{ℕ, ◌≡◌, refl, Bool, true, false, String, Option, none, some, if-elim}
use codejudge_ai.Benchmarks.Worker.Renewals.{
  SampleReach, SampleReach-trans, SampleReach-IsConsistent, CallsOnly,
  renew_before_expiry-SampleReach, here, next,
}
use codejudge_ai.Base.Errors.{
  Error, Result, ok, raise, provider_error, infrastructure, persistence_error,
}
use codejudge_ai.Benchmarks.Generation.{BenchmarkModelConfig, generate}
use codejudge_ai.Benchmarks.Invariant.Histories.{claims, stores, completes, fails}
use codejudge_ai.Benchmarks.Invariant.{IsConsistent}
use codejudge_ai.Worker.Process.{Processed}
use codejudge_ai.Benchmarks.Generation.Artifacts.{generate-IsFitting}
use codejudge_ai.Benchmarks.Model.{
  BenchmarkSampleStatus, BenchmarkSample, BenchmarkTables, GeneratedSolutionArtifact, sample_key,
  is_terminal,
}
use codejudge_ai.Benchmarks.Worker.Lease.{Confirmed, renew_before_expiry}
use codejudge_ai.Benchmarks.Worker.Message.{after_run, after_claim, after_lookup, process_message}
use codejudge_ai.Benchmarks.Worker.Process.{
  Handled, failure, recorded, handled, after_complete, with_snapshot, snapshot_of, after_store,
  with_generated, with_artifact, with_identity, process_claimed, first_finished, after_confirmation,
  run_with_lease,
}
use codejudge_ai.Benchmarks.Worker.Surroundings.{
  BenchmarkWorker, Surroundings, ResolvedTask, StoredSnapshot,
}

-- What others do around the message is a history of calls too.
pub record IsFair (s : Surroundings) : Type 0 where
  pub claim_fair : (d : BenchmarkTables) → SampleReach d (s.before_claim d)
  pub artifact_fair : (d : BenchmarkTables) → SampleReach d (s.before_artifact d)
  pub store_fair : (d : BenchmarkTables) → SampleReach d (s.before_store d)
  pub complete_fair : (d : BenchmarkTables) → SampleReach d (s.before_complete d)
  pub failure_fair : (d : BenchmarkTables) → SampleReach d (s.before_failure d)
  pub renewal_fair : CallsOnly s.first_renewal

module _ (w : BenchmarkWorker) (s : Surroundings) (fair : IsFair s) where
  module _ (claimed : BenchmarkSample) where
    recorded-SampleReach :
        (start : BenchmarkTables) (answer : Result (Option BenchmarkSampleStatus) × BenchmarkTables)
        → SampleReach start answer.1
        → SampleReach start (recorded w s claimed answer).1
    unfolding recorded
    recorded-SampleReach start (ok status, db) p = p
    recorded-SampleReach start (raise e, db) p = p

    failure-SampleReach :
        (code : String) (generation retryable : Bool) (db : BenchmarkTables)
        → SampleReach db (failure w s claimed code generation retryable db).1
    unfolding failure
    failure-SampleReach code generation retryable db = recorded-SampleReach db _ (
        next (fair.failure_fair db) (
          fails s.failure_link (sample_key claimed) w.worker_id code generation retryable
            s.failure_time w.retry_base_delay_seconds s.event_id))

    handled-SampleReach :
        (e : Error) (db : BenchmarkTables) → SampleReach db (handled w s claimed e db).1
    unfolding handled
    handled-SampleReach (provider_error code transient detail_code) db =
        failure-SampleReach _ _ _ db
    handled-SampleReach (infrastructure message) db = failure-SampleReach message false true db
    handled-SampleReach persistence_error db = here
    handled-SampleReach _ db = failure-SampleReach _ _ _ db

    after_complete-SampleReach :
        (start : BenchmarkTables) (answer : Result Bool × BenchmarkTables)
        → SampleReach start answer.1
        → SampleReach start (after_complete w s claimed answer).1
    unfolding after_complete
    after_complete-SampleReach start (ok recorded, db) p = p
    after_complete-SampleReach start (raise e, db) p =
        SampleReach-trans p (handled-SampleReach e db)

    with_snapshot-SampleReach :
        (snapshot : Result StoredSnapshot) (db : BenchmarkTables)
        → SampleReach db (with_snapshot w s claimed snapshot db).1
    unfolding with_snapshot
    with_snapshot-SampleReach (raise e) db = handled-SampleReach e db
    with_snapshot-SampleReach (ok snapshot) db = after_complete-SampleReach db _ (
        next (fair.complete_fair db) (
          completes s.complete_link (sample_key claimed) w.worker_id snapshot.evaluation
            s.complete_time s.total_duration))

    after_store-SampleReach :
        (start : BenchmarkTables) (task : ResolvedTask) (artifact : GeneratedSolutionArtifact)
        (answer : Result Bool × BenchmarkTables)
        → SampleReach start answer.1
        → SampleReach start (after_store w s claimed task artifact answer).1
    unfolding after_store
    after_store-SampleReach start task artifact (raise e, db) p =
        SampleReach-trans p (handled-SampleReach e db)
    after_store-SampleReach start task artifact (ok false, db) p = p
    after_store-SampleReach start task artifact (ok true, db) p =
        SampleReach-trans p (with_snapshot-SampleReach (snapshot_of w s claimed task artifact) db)

    with_generated-SampleReach :
        (task : ResolvedTask) (generated : Result GeneratedSolutionArtifact) (db : BenchmarkTables)
        → ((a : GeneratedSolutionArtifact)
            → generated ≡ ok a
            → a.benchmark_sample_id ≡ sample_key claimed)
        → SampleReach db (with_generated w s claimed task generated db).1
    unfolding with_generated
    with_generated-SampleReach task (raise e) db own = handled-SampleReach e db
    with_generated-SampleReach task (ok a) db own = after_store-SampleReach db task a _ (
        next (fair.store_fair db)
          (stores s.store_link (sample_key claimed) w.worker_id a s.store_time (own a refl)))

    with_artifact-SampleReach :
        (config : BenchmarkModelConfig) (task : ResolvedTask)
        (found : Result (Option GeneratedSolutionArtifact)) (db : BenchmarkTables)
        → SampleReach db (with_artifact w s claimed config task found db).1
    unfolding with_artifact
    with_artifact-SampleReach config task (raise e) db = handled-SampleReach e db
    with_artifact-SampleReach config task (ok (some a)) db =
        with_snapshot-SampleReach (snapshot_of w s claimed task a) db
    with_artifact-SampleReach config task (ok none) db =
        with_generated-SampleReach task
          (generate w.tools w.max_code_size s.created_at claimed config w.providers
            task.specification)
          db
          (λ a e.
            (generate-IsFitting w.tools w.max_code_size s.created_at claimed config w.providers
              task.specification a e).own)

    with_identity-SampleReach :
        (identity : Result (BenchmarkModelConfig × ResolvedTask)) (db : BenchmarkTables)
        → SampleReach db (with_identity w s claimed identity db).1
    unfolding with_identity
    with_identity-SampleReach (raise e) db = handled-SampleReach e db
    with_identity-SampleReach (ok (config, task)) db = with_artifact-SampleReach config task _ db

    process_claimed-SampleReach :
        (db : BenchmarkTables) → SampleReach db (process_claimed w s claimed db).1
    unfolding process_claimed
    process_claimed-SampleReach db =
        SampleReach-trans (fair.artifact_fair db)
          (with_identity-SampleReach _ (s.before_artifact db))

    after_confirmation-SampleReach :
        (start : BenchmarkTables) (confirmed : Confirmed)
        → SampleReach start confirmed.1
        → SampleReach start (after_confirmation w s claimed confirmed).1
    unfolding after_confirmation first_finished
    after_confirmation-SampleReach start (none, db) p = p
    after_confirmation-SampleReach start (some state, db) p =
        SampleReach-trans p (process_claimed-SampleReach db)

    leased-SampleReach :
        (expires : Option ℕ) (db : BenchmarkTables)
        → SampleReach db
            (elim expires as (λ _. Handled) [
              | none ↦ (ok false, db)
              | some lease_expires_at ↦ after_confirmation w s claimed (
                  renew_before_expiry
                    (sample_key claimed)
                    w.worker_id
                    w.lease_seconds
                    s.first_renewal
                    lease_expires_at
                    0
                    db)
            ]).1
    leased-SampleReach none db = here
    leased-SampleReach (some expires) db = after_confirmation-SampleReach db _ (
        renew_before_expiry-SampleReach (sample_key claimed) w.worker_id w.lease_seconds
          s.first_renewal expires 0 db fair.renewal_fair)

    run_with_lease-SampleReach :
        (db : BenchmarkTables) → SampleReach db (run_with_lease w s claimed db).1
    unfolding run_with_lease
    run_with_lease-SampleReach db = leased-SampleReach claimed.lease_expires_at db

  after_run-SampleReach :
      (start : BenchmarkTables) (answer : Handled)
      → SampleReach start answer.1
      → SampleReach start (after_run w s answer).1
  unfolding after_run
  after_run-SampleReach start (ok recorded, db) p = p
  after_run-SampleReach start (raise e, db) p = p

  after_claim-SampleReach :
      (start : BenchmarkTables) (answer : Result (Option BenchmarkSample) × BenchmarkTables)
      → SampleReach start answer.1
      → SampleReach start (after_claim w s answer).1
  unfolding after_claim
  after_claim-SampleReach start (raise e, db) p = p
  after_claim-SampleReach start (ok none, db) p = p
  after_claim-SampleReach start (ok (some claimed), db) p = SampleReach-trans p (
      after_run-SampleReach db (run_with_lease w s claimed db)
        (run_with_lease-SampleReach claimed db))

  after_lookup-SampleReach :
      (found : Result (Option BenchmarkSample)) (db : BenchmarkTables)
      → SampleReach db (after_lookup w s found db).1
  unfolding after_lookup
  after_lookup-SampleReach (raise e) db = here
  after_lookup-SampleReach (ok none) db = here
  after_lookup-SampleReach (ok (some sample)) db =
      if-elim (λ (r : Processed × BenchmarkTables). SampleReach db r.1) (is_terminal sample.status)
        _ _ here
        (after_claim-SampleReach db _ (
          next (fair.claim_fair db)
            (claims s.claim_link (sample_key sample) w.worker_id s.claim_time w.lease_seconds)))

  -- Whatever a benchmark worker does with a message, and however the database, the queue, the
  -- datasets, the providers and the evaluation answer, the tables go through a history of calls of
  -- the repository, so that consistent ones stay consistent, provided that what others do in
  -- between is a history of such calls too.
  pub process_sample-IsConsistent :
      (sample_id : ℕ) (db : BenchmarkTables)
      → IsConsistent db
      → SampleReach db (process_message w s sample_id db).1
        × IsConsistent (process_message w s sample_id db).1
  unfolding process_message
  process_sample-IsConsistent sample_id db c =
      let history = after_lookup-SampleReach _ db in (history, SampleReach-IsConsistent history c)
