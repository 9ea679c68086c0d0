-- ===== src/Jobs/Repository/Finish.antt =====
-- complete and record_failure of app/jobs/repositories.py, and _outbox_record. The snapshots are taken
-- to be within the CHECK constraints of the evaluations table, which have no counterpart.
use codejudge_ai.Base.{
  ℕ, ◌+◌, Bool, true, false, String, Option, none, some, ltb, if◌then◌else◌, ◌||◌, ◌&&◌, not,
  or_else, ◌==◌,
}
use codejudge_ai.Base.Errors.{Result, ok, raise, value_error, integrity_error, persistence_error}
use codejudge_ai.Base.Table.{find}
use codejudge_ai.Jobs.Model.{Database, EvaluationJob, EvaluationSnapshot, OutboxEvent, job_key}
use codejudge_ai.Jobs.Repository.Claim.{is_worker}
use codejudge_ai.Jobs.Retry.{FailureDecision, retry_delay_seconds}
use codejudge_ai.Jobs.State.{
  JobStatus, running, retry_wait, completed, failed, ensure_transition, is_running, is_completed,
}
use codejudge_ai.Jobs.Transaction.{
  Session, Link, ◌>>=◌, ◌>>◌, pure, lift, update_job, add_evaluation, add_event, transaction,
  persistent, as_persistence,
}

-- the fields that a completion writes
abbrev pub finished : EvaluationJob → ℕ → EvaluationJob
finished job now = record job {
  status = completed;
  completed_at = some now;
  updated_at = now;
  snapshot_created = true;
  worker_id = none;
  lease_expires_at = none;
  last_error_category = none;
  last_error_code = none;
}

unfoldable pub complete_job : EvaluationJob → String → EvaluationSnapshot → ℕ → Session Bool
unfolding is_worker ensure_transition
complete_job job worker_id snapshot now db =
    if is_completed job.status
    then ok (true, db)
    else if not (is_running job.status) || not (is_worker job.worker_id worker_id)
    then ok (false, db)
    else (do
      lift (ensure_transition running completed)
      add_evaluation snapshot
      update_job (finished job now)
      pure true)
        db

unfoldable pub complete_body : ℕ → String → EvaluationSnapshot → ℕ → Session Bool
unfolding complete_job
complete_body evaluation_id worker_id snapshot now db = elim (find job_key evaluation_id db.jobs) [
  | none ↦ pure false db
  | some job ↦ complete_job job worker_id snapshot now db
]

-- `existing is not None and existing.status is COMPLETED`
abbrev pub is_done : Option EvaluationJob → Bool
is_done none = false
is_done (some job) = is_completed job.status

-- the second lookup of `complete`, where `again` is how the database answers it
unfoldable pub completed_by : Link → ℕ → Database → Result Bool
completed_by Link.up evaluation_id db =
    if is_done (find job_key evaluation_id db.jobs) then ok true else raise persistence_error
completed_by _ evaluation_id db = raise persistence_error

-- the except clauses of `complete`: an IntegrityError is a success if the job is completed when it
-- is looked up again, after what others commit `between` the two transactions
unfoldable pub after_complete :
    Link → (Database → Database) → ℕ → Result Bool → Database → Result Bool × Database
unfolding completed_by
after_complete again between evaluation_id (raise integrity_error) db =
    let db' = between db in (completed_by again evaluation_id db', db')
after_complete again between evaluation_id r db = (as_persistence r, db)

unfoldable pub complete :
    Link
    → Link
    → (Database → Database)
    → ℕ
    → String
    → EvaluationSnapshot
    → ℕ
    → Database
    → Result Bool × Database
unfolding complete_body transaction after_complete
complete link again between evaluation_id worker_id snapshot now db =
    if not (snapshot.evaluation_id == evaluation_id)
    then (raise value_error, db)
    else let (r, db') = transaction link (complete_body evaluation_id worker_id snapshot now) db in
      after_complete again between evaluation_id r db'

-- _outbox_record
unfoldable pub outbox_record : ℕ → ℕ → ℕ → Option ℕ → OutboxEvent
outbox_record event_id evaluation_id created_at next_attempt_at = record {
  event_id = event_id;
  event_type = "evaluation.requested";
  aggregate_id = evaluation_id;
  created_at = created_at;
  published_at = none;
  attempt_count = 0;
  next_attempt_at = or_else next_attempt_at created_at;
  last_error_code = none;
}

-- the fields that every failed attempt writes
abbrev pub released : EvaluationJob → String → String → ℕ → EvaluationJob
released job category code now = record job {
  last_error_category = some category;
  last_error_code = some code;
  worker_id = none;
  lease_expires_at = none;
  updated_at = now;
}

abbrev pub waiting : EvaluationJob → ℕ → EvaluationJob
waiting job next_attempt = record job { status = retry_wait; next_attempt_at = some next_attempt }

abbrev pub given_up : EvaluationJob → ℕ → EvaluationJob
given_up job now = record job { status = failed; failed_at = some now; next_attempt_at = none }

-- the branch that record_failure and recover_stale share; `job` is released already
unfoldable pub retry_or_fail : Bool → EvaluationJob → ℕ → ℕ → ℕ → Session JobStatus
unfolding ensure_transition retry_delay_seconds outbox_record
retry_or_fail retryable job now base event_id db =
    if retryable && ltb job.attempt_count job.max_attempts
    then (do
      lift (ensure_transition running retry_wait)
      delay ← lift (retry_delay_seconds job.attempt_count base)
      add_event (outbox_record event_id job.evaluation_id now (some (now + delay)))
      update_job (waiting job (now + delay))
      pure retry_wait)
        db
    else (do lift (ensure_transition running failed); update_job (given_up job now); pure failed) db

unfoldable pub fail_job :
    EvaluationJob → String → FailureDecision → ℕ → ℕ → ℕ → Session (Option JobStatus)
unfolding is_worker
fail_job job worker_id decision now base event_id db =
    if not (is_running job.status) || not (is_worker job.worker_id worker_id)
    then ok (none, db)
    else (do
      status ←
          retry_or_fail decision.retryable (released job decision.category decision.code now) now
            base event_id
      pure (some status))
        db

unfoldable pub failure_body : ℕ → String → FailureDecision → ℕ → ℕ → ℕ → Session (Option JobStatus)
unfolding fail_job
failure_body evaluation_id worker_id decision now base event_id db =
    elim (find job_key evaluation_id db.jobs) [
      | none ↦ pure none db
      | some job ↦ fail_job job worker_id decision now base event_id db
    ]

unfoldable pub record_failure :
    Link
    → ℕ
    → String
    → FailureDecision
    → ℕ
    → ℕ
    → ℕ
    → Database
    → Result (Option JobStatus) × Database
unfolding failure_body persistent
record_failure link evaluation_id worker_id decision now base event_id =
    persistent link (failure_body evaluation_id worker_id decision now base event_id)
