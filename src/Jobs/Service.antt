-- ===== src/Jobs/Service.antt =====
-- EvaluationJobService.submit of app/jobs/service.py: the job that it creates. What the request is
-- prepared into (task, fingerprints, expected identities) is the Submission.
use codejudge_ai.Base.{ℕ, Bool, false, none}
use codejudge_ai.Base.Errors.{Result, ok, raise, persistence_error, infrastructure}
use codejudge_ai.Jobs.Model.{Database, EvaluationJob, Submission}
use codejudge_ai.Jobs.Repository.Create.{create}
use codejudge_ai.Jobs.State.{JobStatus, queued}
use codejudge_ai.Jobs.Transaction.{Link}

-- the fields that `submit` sets, and the defaults of EvaluationJob
abbrev pub new_job : Submission → EvaluationJob
new_job submission = record {
  submission = submission;
  updated_at = submission.created_at;
  status = queued;
  attempt_count = 0;
  queued_at = submission.created_at;
  started_at = none;
  completed_at = none;
  failed_at = none;
  next_attempt_at = none;
  worker_id = none;
  lease_expires_at = none;
  last_error_category = none;
  last_error_code = none;
  snapshot_created = false;
}

pub record EvaluationAccepted : Type 0 where
  pub evaluation_id : ℕ
  pub status : JobStatus
  pub created_at : ℕ

-- the reply to the stored job; a PersistenceError is passed on as an infrastructure error
unfoldable pub accepted : Result (EvaluationJob × Bool) → Result EvaluationAccepted
accepted (ok (stored, _)) = ok (record {
  evaluation_id = stored.evaluation_id;
  status = stored.status;
  created_at = stored.created_at;
})
accepted (raise persistence_error) =
    raise (infrastructure "Evaluation job persistence is unavailable.")
accepted (raise e) = raise e

unfoldable pub submit :
    Link
    → Link
    → Link
    → (Database → Database)
    → Submission
    → ℕ
    → Database
    → Result EvaluationAccepted × Database
unfolding accepted create
submit first link again between submission event_id db =
    let (r, db') = create first link again between (new_job submission) event_id db in
    (accepted r, db')
