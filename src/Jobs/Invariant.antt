-- ===== src/Jobs/Invariant.antt =====
-- What holds of the tables between two transactions, and how an update of one row keeps it.
pub mod Keeps
pub mod Claim
pub mod Finish
pub mod Failure
pub mod Create
pub mod Outbox
pub mod Complete
use codejudge_ai.Base.{
  ℕ, ◌≤◌, ◌<◌, ◌≡◌, ◌≢◌, refl, Bool, true, false, Option, none, some, List, [], ◌∷◌, ◌++◌, arith,
  is_some, or_else, ◌⊎◌, All, Any, All-map, Any-append_left, All-append,
}
use codejudge_ai.Base.Table.{find, put, Distinct, Distinct-put, All-put, All-put_other, All-find}
use codejudge_ai.Jobs.Model.{
  Database, EvaluationJob, EvaluationSnapshot, OutboxEvent, job_key, evaluation_key, event_key,
}
use codejudge_ai.Jobs.State.{
  JobStatus, queued, running, retry_wait, completed, failed, is_pending, is_running, is_completed,
}

abbrev pub is_waiting : JobStatus → Bool
is_waiting retry_wait = true
is_waiting _ = false

abbrev pub is_failed : JobStatus → Bool
is_failed failed = true
is_failed _ = false

-- The columns of one job agree with its status.
pub record IsSound (job : EvaluationJob) : Type 0 where
  pub sized : 0 < job.source_size
  pub budget : 0 < job.max_attempts
  pub attempts : job.attempt_count ≤ job.max_attempts
  pub attempts_left : is_pending job.status ≡ true → job.attempt_count < job.max_attempts
  pub attempted : is_running job.status ≡ true → 0 < job.attempt_count
  pub owned : is_some job.worker_id ≡ is_running job.status
  pub leased : is_some job.lease_expires_at ≡ is_running job.status
  pub due : is_some job.next_attempt_at ≡ is_waiting job.status
  pub snapshot : job.snapshot_created ≡ is_completed job.status
  pub completion : is_some job.completed_at ≡ is_completed job.status
  pub failure : is_some job.failed_at ≡ is_failed job.status

-- The event announces the job, and no earlier than the job may be claimed.
abbrev pub Covers : EvaluationJob → OutboxEvent → Type 0
Covers job event =
    (event.aggregate_id ≡ job.evaluation_id)
    × (or_else job.next_attempt_at 0 ≤ event.next_attempt_at)

-- A job that waits for a worker has an event that leads one to it.
abbrev pub IsCovered : List OutboxEvent → EvaluationJob → Type 0
IsCovered outbox job = is_pending job.status ≡ true → Any (Covers job) outbox

-- The event is not the only one that leads to the job, unless the job is due.
abbrev pub IsDispensable : List OutboxEvent → ℕ → ℕ → EvaluationJob → Type 0
IsDispensable outbox event_id now job =
    is_pending job.status ≡ true
    → (or_else job.next_attempt_at 0 ≤ now)
      ⊎ Any (λ event. (event_key event ≢ event_id) × Covers job event) outbox

-- A job has a stored evaluation exactly when it is completed.
abbrev pub IsStored : List EvaluationSnapshot → EvaluationJob → Type 0
IsStored evaluations job =
    is_some (find evaluation_key job.evaluation_id evaluations) ≡ is_completed job.status

pub record IsConsistent (db : Database) : Type 0 where
  pub distinct : Distinct job_key db.jobs
  pub sound : All IsSound db.jobs
  pub covered : All (IsCovered db.outbox) db.jobs
  pub stored : All (IsStored db.evaluations) db.jobs

-- The update of a job that is not completed, before and after.
pub put-IsConsistent :
    (db : Database) (job : EvaluationJob)
    → IsConsistent db
    → IsSound job
    → IsCovered db.outbox job
    → IsStored db.evaluations job
    → IsConsistent (record db { jobs = put job_key job db.jobs })
put-IsConsistent db job c sound covered stored = record {
  distinct = Distinct-put job_key job db.jobs c.distinct;
  sound = All-put job_key IsSound job db.jobs sound c.sound;
  covered = All-put job_key (IsCovered db.outbox) job db.jobs covered c.covered;
  stored = All-put job_key (IsStored db.evaluations) job db.jobs stored c.stored;
}

-- A new event takes no cover away.
pub event-IsConsistent :
    (db : Database) (event : OutboxEvent)
    → IsConsistent db
    → IsConsistent (record db { outbox = db.outbox ++ event ∷ [] })
event-IsConsistent db event c = record {
  distinct = c.distinct;
  sound = c.sound;
  covered =
      All-map (IsCovered db.outbox) (IsCovered (db.outbox ++ event ∷ []))
        (λ job h p. Any-append_left (Covers job) db.outbox (event ∷ []) (h p)) db.jobs c.covered;
  stored = c.stored;
}

-- The facts about a job that was selected.
pub record IsHeld (db : Database) (job : EvaluationJob) : Type 0 where
  pub sound : IsSound job
  pub covered : IsCovered db.outbox job
  pub stored : IsStored db.evaluations job

pub find-IsHeld :
    (db : Database) (k : ℕ) (job : EvaluationJob)
    → IsConsistent db
    → find job_key k db.jobs ≡ some job
    → IsHeld db job
find-IsHeld db k job c e = record {
  sound = All-find job_key IsSound k db.jobs job c.sound e;
  covered = All-find job_key (IsCovered db.outbox) k db.jobs job c.covered e;
  stored = All-find job_key (IsStored db.evaluations) k db.jobs job c.stored e;
}
