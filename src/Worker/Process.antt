-- ===== src/Worker/Process.antt =====
-- process_message of app/worker/service.py: the calls of the repository that it makes, with what
-- other processes (and this worker's own heartbeat, `_renew_lease`) commit in between.
use codejudge_ai.Base.{ℕ, Bool, true, false, String, Option, none, some, if◌then◌else◌, is_some}
use codejudge_ai.Base.Errors.{Error, Result, ok, raise, ◌>>◌, persistence_error, queue_unavailable}
use codejudge_ai.Jobs.Model.{Database, EvaluationJob, EvaluationSnapshot}
use codejudge_ai.Jobs.Repository.Claim.{claim}
use codejudge_ai.Jobs.Repository.Create.{get}
use codejudge_ai.Jobs.Repository.Finish.{complete, record_failure}
use codejudge_ai.Jobs.Retry.{classify_failure}
use codejudge_ai.Jobs.State.{JobStatus, is_pending}
use codejudge_ai.Jobs.Transaction.{Link}
use codejudge_ai.Worker.Validation.{Present, validated_request}

pub record Worker : Type 0 where
  pub worker_id : String
  pub lease_seconds : ℕ
  pub retry_base_delay_seconds : ℕ

-- What happens around one message: how the database and the queue answer, the clock, the worker's
-- environment, what evaluate_snapshot answers or raises for a claimed job, and what the others
-- commit between the lookup and the claim (`before`), during the evaluation (`during`), and between
-- a refused completion and the second lookup of the evaluation (`between`).
pub record Surroundings : Type 0 where
  pub lookup_link : Link
  pub claim_link : Link
  pub complete_link : Link
  pub again_link : Link
  pub failure_link : Link
  pub queue_up : Bool
  pub claim_time : ℕ
  pub complete_time : ℕ
  pub failure_time : ℕ
  pub event_id : ℕ
  pub present : Present
  pub evaluate_snapshot : EvaluationJob → Result EvaluationSnapshot
  pub before : Database → Database
  pub during : Database → Database
  pub between : Database → Database

-- The message is acknowledged, or stays with the consumer group, or an exception leaves the call.
pub data Processed : Type 0 where
  acknowledged : Processed
  kept : Processed
  raised : Error → Processed

unfoldable pub acknowledge : Bool → Processed
acknowledge true = acknowledged
acknowledge false = raised queue_unavailable

-- `if transition_recorded: await self._queue.acknowledge(...)`
unfoldable pub settle : Bool → Bool → Processed
settle queue_up transition_recorded = if transition_recorded then acknowledge queue_up else kept

-- the answer of record_failure
unfoldable pub after_failure : Bool → Result (Option JobStatus) → Processed
after_failure queue_up (ok status) = settle queue_up (is_some status)
after_failure queue_up (raise e) = raised e

abbrev pub is_persistence_error : Error → Bool
is_persistence_error persistence_error = true
is_persistence_error _ = false

-- `except PersistenceError: return`
unfoldable pub unless_persistence : Error → Processed
unless_persistence e = if is_persistence_error e then kept else raised e

-- `except Exception as error`
unfoldable pub report_failure : Worker → Surroundings → ℕ → Error → Database → Processed × Database
report_failure w s evaluation_id e db =
    let answer =
      record_failure s.failure_link evaluation_id w.worker_id (classify_failure e) s.failure_time
        w.retry_base_delay_seconds s.event_id db in
    (after_failure s.queue_up answer.0, answer.1)

-- the except clauses: a PersistenceError leaves the message, anything else is a failure of the job
unfoldable pub failed_attempt : Worker → Surroundings → ℕ → Error → Database → Processed × Database
failed_attempt w s evaluation_id e db =
    if is_persistence_error e then (kept, db) else report_failure w s evaluation_id e db

-- the answer of complete
unfoldable pub after_completion :
    Worker → Surroundings → ℕ → Result Bool × Database → Processed × Database
after_completion w s evaluation_id (ok transition_recorded, db) =
    (settle s.queue_up transition_recorded, db)
after_completion w s evaluation_id (raise e, db) = failed_attempt w s evaluation_id e db

-- validation and evaluation of the claimed job
unfoldable pub evaluated : Surroundings → EvaluationJob → Result EvaluationSnapshot
evaluated s job = validated_request job s.present >> s.evaluate_snapshot job

-- the `try` block and its handlers, once the evaluation has ended
unfoldable pub finish :
    Worker → Surroundings → ℕ → Result EvaluationSnapshot → Database → Processed × Database
finish w s evaluation_id (ok snapshot) db = after_completion w s evaluation_id (
    complete s.complete_link s.again_link s.between evaluation_id w.worker_id snapshot
      s.complete_time db)
finish w s evaluation_id (raise e) db = failed_attempt w s evaluation_id e db

-- the answer of claim
unfoldable pub after_claim :
    Worker → Surroundings → ℕ → Result (Option EvaluationJob) × Database → Processed × Database
after_claim w s evaluation_id (raise e, db) = (unless_persistence e, db)
after_claim w s evaluation_id (ok none, db) = (acknowledge s.queue_up, db)
after_claim w s evaluation_id (ok (some claimed), db) =
    finish w s evaluation_id (evaluated s claimed) (s.during db)

-- the answer of get
unfoldable pub after_lookup :
    Worker → Surroundings → ℕ → Result (Option EvaluationJob) → Database → Processed × Database
after_lookup w s evaluation_id (raise e) db = (unless_persistence e, db)
after_lookup w s evaluation_id (ok none) db = (acknowledge s.queue_up, db)
after_lookup w s evaluation_id (ok (some job)) db =
    if is_pending job.status
    then after_claim w s evaluation_id
        (claim s.claim_link evaluation_id w.worker_id s.claim_time w.lease_seconds (s.before db))
    else (acknowledge s.queue_up, db)

unfoldable pub process_message : Worker → Surroundings → ℕ → Database → Processed × Database
process_message w s evaluation_id db =
    after_lookup w s evaluation_id (get s.lookup_link evaluation_id db).0 db
