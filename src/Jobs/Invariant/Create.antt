-- ===== src/Jobs/Invariant/Create.antt =====
-- create: what an insertion does, and that it keeps the tables consistent.
use codejudge_ai.Base.{
  ℕ, ◌≡◌, refl, Bool, true, false, none, arith, is_some, if◌then◌else◌, ◌&&◌, [], ◌∷◌, ◌++◌,
  All-append, Any-append_right, inl,
}
use codejudge_ai.Base.Errors.{ok, raise, integrity_error}
use codejudge_ai.Base.Table.{find, insert_row, Distinct-append}
use codejudge_ai.Jobs.Transaction.Rules.{if-Ensures, transaction-Ensures}
use codejudge_ai.Jobs.Invariant.{
  IsSound, IsCovered, IsStored, IsConsistent, Covers, event-IsConsistent,
}
use codejudge_ai.Jobs.Model.{
  Database, EvaluationJob, OutboxEvent, Submission, job_key, evaluation_key, event_key, job_checks,
}
use codejudge_ai.Jobs.Repository.Create.{key_taken, add_job, create_body}
use codejudge_ai.Jobs.Repository.Finish.{outbox_record}
use codejudge_ai.Jobs.Service.{new_job}
use codejudge_ai.Jobs.Transaction.{Link, add_event, transaction}

-- the event that announces a new job
abbrev pub first_event : EvaluationJob → ℕ → OutboxEvent
first_event job event_id = outbox_record event_id job.evaluation_id job.created_at none

abbrev pub with_new : Database → EvaluationJob → ℕ → Database
with_new db job event_id = record db {
  jobs = db.jobs ++ job ∷ [];
  outbox = db.outbox ++ first_event job event_id ∷ [];
}

-- the constraints that an insertion must meet
abbrev pub insertable : EvaluationJob → ℕ → Database → Bool
insertable job event_id db =
    job_checks job
    && (if key_taken job.idempotency_key db.jobs then false else true)
    && (if is_some (find job_key job.evaluation_id db.jobs) then false else true)
    && (if is_some (find event_key event_id db.outbox) then false else true)

-- The job and its event are inserted together, or nothing is and an IntegrityError is raised.
pub create_body-eq :
    (job : EvaluationJob) (event_id : ℕ) (db : Database)
    → create_body job event_id db ≡ (
        if insertable job event_id db
        then ok (tt, with_new db job event_id)
        else raise integrity_error)
unfolding create_body add_job add_event insert_row
create_body-eq job event_id db = ground arith

new_job-IsSound :
    (submission : Submission)
    → job_checks (new_job submission) ≡ true
    → IsSound (new_job submission)
unfolding job_checks
new_job-IsSound submission h = ground arith

with_new-IsConsistent :
    (submission : Submission) (event_id : ℕ) (db : Database)
    → IsConsistent db
    → job_checks (new_job submission) ≡ true
    → find job_key submission.evaluation_id db.jobs ≡ none
    → find evaluation_key submission.evaluation_id db.evaluations ≡ none
    → IsConsistent (with_new db (new_job submission) event_id)
unfolding outbox_record
with_new-IsConsistent submission event_id db c checks new unstored =
    let job = new_job submission in
    let event = first_event job event_id in
    let announced = event-IsConsistent db event c in
    record {
      distinct = Distinct-append job_key db.jobs job new c.distinct;
      sound = All-append IsSound db.jobs (job ∷ []) c.sound (new_job-IsSound submission checks, tt);
      covered =
          All-append (IsCovered (db.outbox ++ event ∷ [])) db.jobs (job ∷ []) announced.covered (
            (λ _. Any-append_right (Covers job) db.outbox (event ∷ []) (inl (refl, omega arith))),
            tt,
          );
      stored =
          All-append (IsStored db.evaluations) db.jobs (job ∷ []) c.stored
            (ground (arith, unstored), tt);
    }

-- The insertion of a new job keeps the tables consistent, if no evaluation has its id yet.
pub insertion-IsConsistent :
    (link : Link) (submission : Submission) (event_id : ℕ) (db : Database)
    → IsConsistent db
    → find evaluation_key submission.evaluation_id db.evaluations ≡ none
    → IsConsistent (transaction link (create_body (new_job submission) event_id) db).1
insertion-IsConsistent link submission event_id db c unstored =
    transaction-Ensures IsConsistent link (create_body (new_job submission) event_id) db c (
      rw (create_body-eq (new_job submission) event_id db) (
        if-Ensures IsConsistent (insertable (new_job submission) event_id db) _ _
          (λ p.
            with_new-IsConsistent submission event_id db c (ground arith) (ground arith) unstored)
          (λ _. tt)))
