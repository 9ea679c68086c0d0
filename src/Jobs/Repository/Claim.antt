-- ===== src/Jobs/Repository/Claim.antt =====
-- claim and renew_lease of app/jobs/repositories.py.
use codejudge_ai.Base.{
  ℕ, ◌+◌, Bool, true, false, String, Option, none, some, ltb, if◌then◌else◌, ◌||◌, not, str_eq,
}
use codejudge_ai.Base.Errors.{Result, ok}
use codejudge_ai.Base.Table.{find}
use codejudge_ai.Jobs.Model.{Database, EvaluationJob, job_key}
use codejudge_ai.Jobs.State.{
  JobStatus, queued, running, retry_wait, ensure_transition, is_queued, is_running,
}
use codejudge_ai.Jobs.Transaction.{Session, Link, ◌>>=◌, ◌>>◌, pure, lift, update_job, persistent}

-- a waiting job that is due goes back to the queue; `none` is the early return
unfoldable pub wake : JobStatus → Option ℕ → ℕ → EvaluationJob → Session (Option EvaluationJob)
unfolding ensure_transition
wake retry_wait none now job db = ok (none, db)
wake retry_wait (some due) now job db =
    if ltb now due
    then ok (none, db)
    else (do
      lift (ensure_transition retry_wait queued)
      pure (some (record job { status = queued; queued_at = now })))
        db
wake _ _ now job db = ok (some job, db)

-- the fields that a claim writes
abbrev pub started : EvaluationJob → String → ℕ → ℕ → EvaluationJob
started job worker_id now lease = record job {
  status = running;
  attempt_count = job.attempt_count + 1;
  started_at = some now;
  updated_at = now;
  worker_id = some worker_id;
  lease_expires_at = some (now + lease);
  next_attempt_at = none;
}

unfoldable pub start : EvaluationJob → String → ℕ → ℕ → Session (Option EvaluationJob)
unfolding ensure_transition
start job worker_id now lease db =
    if is_queued job.status
    then (do
      lift (ensure_transition queued running)
      update_job (started job worker_id now lease)
      pure (some (started job worker_id now lease)))
        db
    else ok (none, db)

unfoldable pub claim_job : EvaluationJob → String → ℕ → ℕ → Session (Option EvaluationJob)
unfolding wake start
claim_job job worker_id now lease = do
  woken ← wake job.status job.next_attempt_at now job
  elim woken [ none ↦ pure none | some job' ↦ start job' worker_id now lease ]

unfoldable pub claim_body : ℕ → String → ℕ → ℕ → Session (Option EvaluationJob)
unfolding claim_job
claim_body evaluation_id worker_id now lease db = elim (find job_key evaluation_id db.jobs) [
  | none ↦ pure none db
  | some job ↦ claim_job job worker_id now lease db
]

unfoldable pub claim :
    Link → ℕ → String → ℕ → ℕ → Database → Result (Option EvaluationJob) × Database
unfolding claim_body persistent
claim link evaluation_id worker_id now lease =
    persistent link (claim_body evaluation_id worker_id now lease)

-- `record.worker_id == worker_id`
unfoldable pub is_worker : Option String → String → Bool
is_worker none worker_id = false
is_worker (some holder) worker_id = str_eq holder worker_id

-- the fields that a renewal writes
abbrev pub renewed : EvaluationJob → ℕ → ℕ → EvaluationJob
renewed job now lease = record job { lease_expires_at = some (now + lease); updated_at = now }

unfoldable pub renew_job : EvaluationJob → String → ℕ → ℕ → Session Bool
unfolding is_worker
renew_job job worker_id now lease db =
    if not (is_running job.status) || not (is_worker job.worker_id worker_id)
    then ok (false, db)
    else (update_job (renewed job now lease) >> pure true) db

unfoldable pub renew_body : ℕ → String → ℕ → ℕ → Session Bool
unfolding renew_job
renew_body evaluation_id worker_id now lease db = elim (find job_key evaluation_id db.jobs) [
  | none ↦ pure false db
  | some job ↦ renew_job job worker_id now lease db
]

unfoldable pub renew_lease : Link → ℕ → String → ℕ → ℕ → Database → Result Bool × Database
unfolding renew_body persistent
renew_lease link evaluation_id worker_id now lease =
    persistent link (renew_body evaluation_id worker_id now lease)
