-- ===== src/Jobs/History.antt =====
-- Any sequence of calls of the repository, by any number of workers, publishers and clients.
use codejudge_ai.Base.{ℕ, ◌≡◌, Bool, String, none, [], All}
use codejudge_ai.Base.Table.{find}
use codejudge_ai.Jobs.Invariant.Claim.{claim-IsConsistent, renew_lease-IsConsistent}
use codejudge_ai.Jobs.Invariant.Complete.{complete-IsConsistent}
use codejudge_ai.Jobs.Invariant.Create.{insertion-IsConsistent}
use codejudge_ai.Jobs.Invariant.Failure.{record_failure-IsConsistent, recover_stale-IsConsistent}
use codejudge_ai.Jobs.Invariant.Outbox.{
  mark_outbox_published-IsConsistent, mark_outbox_failed-IsConsistent,
}
use codejudge_ai.Jobs.Invariant.{IsConsistent, IsDispensable}
use codejudge_ai.Jobs.Model.{Database, EvaluationSnapshot, Submission, evaluation_key}
use codejudge_ai.Jobs.Repository.Claim.{claim, renew_lease}
use codejudge_ai.Jobs.Repository.Create.{create_body}
use codejudge_ai.Jobs.Repository.Finish.{complete, record_failure}
use codejudge_ai.Jobs.Repository.Outbox.{mark_outbox_published, mark_outbox_failed}
use codejudge_ai.Jobs.Repository.Recover.{recover_stale}
use codejudge_ai.Jobs.Retry.{FailureDecision}
use codejudge_ai.Jobs.Service.{new_job}
use codejudge_ai.Jobs.Transaction.{Link, transaction}

-- One transaction that changes the tables. A new job's id has no evaluation yet, and an event is put
-- off only when each pending job is due or has another event; the calls are free otherwise.
pub data Step (db : Database) : Database → Type 0 where
  inserts :
      (link : Link) (submission : Submission) (event_id : ℕ)
      → find evaluation_key submission.evaluation_id db.evaluations ≡ none
      → Step db (transaction link (create_body (new_job submission) event_id) db).1
  claims :
      (link : Link) (evaluation_id : ℕ) (worker_id : String) (now lease : ℕ)
      → Step db (claim link evaluation_id worker_id now lease db).1
  renews :
      (link : Link) (evaluation_id : ℕ) (worker_id : String) (now lease : ℕ)
      → Step db (renew_lease link evaluation_id worker_id now lease db).1
  completes :
      (link again : Link) (between : Database → Database) (evaluation_id : ℕ) (worker_id : String)
      (snapshot : EvaluationSnapshot) (now : ℕ)
      → Step db (complete link again between evaluation_id worker_id snapshot now db).1
  fails :
      (link : Link) (evaluation_id : ℕ) (worker_id : String) (decision : FailureDecision)
      (now base event_id : ℕ)
      → Step db (record_failure link evaluation_id worker_id decision now base event_id db).1
  recovers :
      (link : Link) (uuid : ℕ → ℕ) (locked : ℕ → Bool) (now base limit : ℕ)
      → Step db (recover_stale link uuid locked now base limit db).1
  publishes :
      (link : Link) (event_id now : ℕ) → Step db (mark_outbox_published link event_id now db).1
  defers :
      (link : Link) (event_id now base : ℕ)
      → All (IsDispensable db.outbox event_id now) db.jobs
      → Step db (mark_outbox_failed link event_id now base db).1

pub data Reach (db : Database) : Database → Type 0 where
  here : Reach db db
  next : {middle last : Database} → Reach db middle → Step middle last → Reach db last

pub Reach-trans : {a b c : Database} → Reach a b → Reach b c → Reach a c
Reach-trans p here = p
Reach-trans p (next q step) = next (Reach-trans p q) step

abbrev pub empty_database : Database
empty_database = record { jobs = []; evaluations = []; outbox = [] }

-- Every call of the job repository, on every branch and however the database answers, keeps the
-- tables consistent: columns agree with the status, attempts stay within their limit, a pending job
-- has an outbox event that is due no earlier than the job, and an evaluation is stored exactly for
-- a completed job. The id of a job that is created has no stored evaluation before, and when
-- mark_outbox_failed puts an event off, every pending job is due or has another event of this kind.
pub Step-IsConsistent : {db db' : Database} → Step db db' → IsConsistent db → IsConsistent db'
Step-IsConsistent {db} (inserts link submission event_id new) c =
    insertion-IsConsistent link submission event_id db c new
Step-IsConsistent {db} (claims link evaluation_id worker_id now lease) c =
    claim-IsConsistent link evaluation_id worker_id now lease db c
Step-IsConsistent {db} (renews link evaluation_id worker_id now lease) c =
    renew_lease-IsConsistent link evaluation_id worker_id now lease db c
Step-IsConsistent {db} (completes link again between evaluation_id worker_id snapshot now) c =
    complete-IsConsistent link again between evaluation_id worker_id snapshot now db c
Step-IsConsistent {db} (fails link evaluation_id worker_id decision now base event_id) c =
    record_failure-IsConsistent link evaluation_id worker_id decision now base event_id db c
Step-IsConsistent {db} (recovers link uuid locked now base limit) c =
    recover_stale-IsConsistent link uuid locked now base limit db c
Step-IsConsistent {db} (publishes link event_id now) c =
    mark_outbox_published-IsConsistent link event_id now db c
Step-IsConsistent {db} (defers link event_id now base ready) c =
    mark_outbox_failed-IsConsistent link event_id now base db c ready

pub Reach-IsConsistent : {db db' : Database} → Reach db db' → IsConsistent db → IsConsistent db'
Reach-IsConsistent here c = c
Reach-IsConsistent (next r s) c = Step-IsConsistent s (Reach-IsConsistent r c)

empty_database-IsConsistent : IsConsistent empty_database
empty_database-IsConsistent = record { distinct = tt; sound = tt; covered = tt; stored = tt }

-- The tables are consistent after any history that began with empty tables.
pub Reach-empty-IsConsistent : {db : Database} → Reach empty_database db → IsConsistent db
Reach-empty-IsConsistent r = Reach-IsConsistent r empty_database-IsConsistent
