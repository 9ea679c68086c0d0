-- ===== src/Worker/Deliveries.antt =====
-- What becomes of a message for a job that may be claimed, when the database and the queue are up.
use codejudge_ai.Base.{
  ℕ, ◌≡◌, refl, arith, inl, inr, true, false, String, some, if◌then◌else◌, ◌&&◌, ltb, is_some,
}
use codejudge_ai.Base.Errors.{Error, ok, raise, evaluation_integrity}
use codejudge_ai.Base.Table.{find}
use codejudge_ai.Jobs.Invariant.Claim.{claimable, claimed, claim-claimed, runs_for, with_job}
use codejudge_ai.Jobs.Invariant.Complete.{with_snapshot}
use codejudge_ai.Jobs.Invariant.Finish.{stopped, with_retry}
use codejudge_ai.Jobs.Invariant.{IsConsistent}
use codejudge_ai.Jobs.Model.{Database, EvaluationJob, EvaluationSnapshot, job_key, event_key}
use codejudge_ai.Jobs.Ownership.{complete-eq, record_failure-eq}
use codejudge_ai.Jobs.Repository.Create.{get}
use codejudge_ai.Jobs.Retry.{classify_failure}
use codejudge_ai.Jobs.State.{is_pending, is_completed}
use codejudge_ai.Jobs.Transaction.{up, persistent, transaction}
use codejudge_ai.Worker.Identity.{
  IsSameTask, IsSameRuntime, validated_request-ok_iff, validated_request-PassesOrRefuses,
}
use codejudge_ai.Worker.Process.{
  Worker, Surroundings, acknowledged, kept, acknowledge, settle, after_failure,
  is_persistence_error, report_failure, failed_attempt, after_completion, evaluated, finish,
  after_claim, after_lookup, process_message,
}

-- the surroundings in which every call is answered and the queue is up
pub record IsUp (s : Surroundings) : Type 0 where
  pub lookup_up : s.lookup_link ≡ up
  pub claim_up : s.claim_link ≡ up
  pub complete_up : s.complete_link ≡ up
  pub failure_up : s.failure_link ≡ up
  pub queue_up : s.queue_up ≡ true

get-find :
    (evaluation_id : ℕ) (db : Database)
    → get up evaluation_id db ≡ (ok (find job_key evaluation_id db.jobs), db)
unfolding get persistent transaction
get-find evaluation_id db = refl

module _ (w : Worker) (s : Surroundings) (evaluation_id : ℕ) (db : Database) (job : EvaluationJob)
    (answers : IsUp s) (c : IsConsistent db) (e : find job_key evaluation_id db.jobs ≡ some job)
    (undisturbed : s.before db ≡ db) where
  -- A message for a job that cannot be claimed by the clock of the worker, because it is not
  -- pending or waits for a later time, is acknowledged, and in consistent tables that nobody else
  -- changes, with the links and the queue up, nothing happens.
  pub early_message-acknowledged :
      claimable job.status job.next_attempt_at s.claim_time ≡ false
      → process_message w s evaluation_id db ≡ (acknowledged, db)
  unfolding process_message after_lookup after_claim acknowledge
  early_message-acknowledged h =
      rw
        (
          answers.lookup_up,
          answers.claim_up,
          answers.queue_up,
          get-find evaluation_id db,
          e,
          undisturbed,
          claim-claimed evaluation_id w.worker_id s.claim_time w.lease_seconds db job c e,
          h,
        )
        (ground arith)

-- A worker finds the job of a message pending, and others commit before it claims the job.
module _ (w : Worker) (s : Surroundings) (evaluation_id : ℕ) (db : Database)
    (seen job : EvaluationJob) (answers : IsUp s)
    (found : find job_key evaluation_id db.jobs ≡ some seen)
    (pending : is_pending seen.status ≡ true) (c : IsConsistent (s.before db))
    (e : find job_key evaluation_id (s.before db).jobs ≡ some job) where
  -- the row that the worker claims
  abbrev pub own : EvaluationJob
  own = claimed job w.worker_id s.claim_time w.lease_seconds

  -- the tables when the evaluation has ended
  abbrev pub later_db : Database
  later_db = s.during (with_job (s.before db) own)

  claims_it :
      claimable job.status job.next_attempt_at s.claim_time ≡ true
      → process_message w s evaluation_id db ≡ finish w s evaluation_id (evaluated s own) later_db
  unfolding process_message after_lookup after_claim
  claims_it h = rw (
    answers.lookup_up,
    answers.claim_up,
    get-find evaluation_id db,
    found,
    pending,
    claim-claimed evaluation_id w.worker_id s.claim_time w.lease_seconds (s.before db) job c e,
    h,
  )

  module _ (h : claimable job.status job.next_attempt_at s.claim_time ≡ true)
      (later : EvaluationJob) (d : IsConsistent later_db)
      (f : find job_key evaluation_id later_db.jobs ≡ some later) where
    -- A worker finds the job of a message pending, claims it after what others commit in between,
    -- and its evaluation succeeds with the snapshot of this job, with consistent tables at the
    -- claim and at the end of the evaluation, and the links and the queue up: if it runs the job
    -- still, the snapshot and the completion are stored and the message acknowledged; a job that is
    -- completed by then is acknowledged; a worker that lost the job changes nothing and leaves the
    -- message.
    pub success-completes :
        (snapshot : EvaluationSnapshot)
        → evaluated s own ≡ ok snapshot
        → snapshot.evaluation_id ≡ evaluation_id
        → process_message w s evaluation_id db ≡ (
            if is_completed later.status
            then (acknowledged, later_db)
            else if runs_for later w.worker_id
            then (acknowledged, with_snapshot later_db later snapshot s.complete_time)
            else (kept, later_db))
    unfolding finish after_completion settle acknowledge
    success-completes snapshot g same =
        rw
          (
            claims_it h,
            g,
            answers.complete_up,
            answers.queue_up,
            complete-eq later evaluation_id w.worker_id s.complete_time later_db d f s.again_link
                s.between snapshot same,
          )
          (ground arith)

    -- A worker finds the job of a message pending, claims it after what others commit in between,
    -- and its validation or evaluation raises, with consistent tables at the claim and at the end
    -- of the evaluation, the links and the queue up and a new event id: a PersistenceError changes
    -- nothing and leaves the message; otherwise a worker that runs the job still acknowledges the
    -- message and gives the job another attempt with an outbox event, or ends it, as its failure
    -- decision and attempts say; a worker that lost the job changes nothing and leaves the message.
    pub failure-recorded :
        (error : Error)
        → evaluated s own ≡ raise error
        → is_some (find event_key s.event_id later_db.outbox) ≡ false
        → process_message w s evaluation_id db ≡ (
            if is_persistence_error error
            then (kept, later_db)
            else if runs_for later w.worker_id
            then if (classify_failure error).retryable && ltb later.attempt_count later.max_attempts
              then (
                acknowledged,
                with_retry later_db later
                    (classify_failure error).category
                    (classify_failure error).code
                    s.failure_time
                    w.retry_base_delay_seconds
                    s.event_id,
              )
              else (
                acknowledged,
                with_job later_db (
                    stopped later
                      (classify_failure error).category
                      (classify_failure error).code
                      s.failure_time),
              )
            else (kept, later_db))
    unfolding finish failed_attempt report_failure after_failure settle acknowledge
    failure-recorded error g fresh =
        rw
          (
            claims_it h,
            g,
            answers.failure_up,
            answers.queue_up,
            record_failure-eq later evaluation_id w.worker_id s.failure_time later_db d f
                (classify_failure error) w.retry_base_delay_seconds s.event_id,
            fresh,
          )
          (ground arith)

    -- A worker finds the job of a message pending and claims it after what others commit in
    -- between, but its source, its task or tests or a version that it expects is not the present
    -- one, although the request and the identity of the runtime can be built, with consistent
    -- tables at the claim and at the end, and the links and the queue up: a worker that runs the
    -- job still ends it as failed with the category integrity and acknowledges the message,
    -- whatever the evaluation would answer; a worker that lost the job changes nothing and leaves
    -- the message.
    pub mismatch-stopped :
        (IsSameTask own s.present × IsSameRuntime own s.present → ⊥)
        → s.present.prepare_request ≡ ok tt
        → s.present.runtime_identity ≡ ok tt
        → (code : String) × (process_message w s evaluation_id db ≡ (
            if runs_for later w.worker_id
            then (acknowledged, with_job later_db (stopped later "integrity" code s.failure_time))
            else (kept, later_db)))
    unfolding finish evaluated failed_attempt report_failure after_failure settle acknowledge
        classify_failure
    mismatch-stopped other prepared identified =
        elim (validated_request-PassesOrRefuses own s.present prepared identified) [
          | inl passes ↦ absurd (other ((validated_request-ok_iff own s.present).0 passes))
          | inr (code, refused) ↦ (
            code,
            rw
                (
                  claims_it h,
                  refused,
                  answers.failure_up,
                  answers.queue_up,
                  record_failure-eq later evaluation_id w.worker_id s.failure_time later_db d f
                      (classify_failure (evaluation_integrity code)) w.retry_base_delay_seconds
                      s.event_id,
                )
                (ground arith),
          )
        ]
