-- ===== src/Jobs/Invariant/Claim.antt =====
-- claim and renew_lease: what they do to a consistent database, and that they keep it consistent.
use codejudge_ai.Base.{
  ℕ, ◌≡◌, Bool, true, false, String, Option, none, some, arith, leb, if◌then◌else◌, ◌&&◌,
}
use codejudge_ai.Base.Errors.{ok}
use codejudge_ai.Base.Table.{find, put}
use codejudge_ai.Jobs.Invariant.Keeps.{Keeps}
use codejudge_ai.Jobs.Transaction.Rules.{if-Ensures, found-Ensures, persistent-Ensures}
use codejudge_ai.Jobs.Invariant.{IsSound, IsConsistent, IsHeld, put-IsConsistent, find-IsHeld}
use codejudge_ai.Jobs.Model.{Database, EvaluationJob, job_key, job_checks}
use codejudge_ai.Jobs.Repository.Claim.{
  started, claim_job, claim_body, claim, is_worker, renewed, renew_job, renew_body, renew_lease,
}
use codejudge_ai.Jobs.State.{JobStatus, queued, retry_wait, is_pending, is_running}
use codejudge_ai.Jobs.Transaction.{Link, up, update_job-ok}

-- A queued job, or a waiting one whose time has come.
abbrev pub claimable : JobStatus → Option ℕ → ℕ → Bool
claimable queued due now = true
claimable retry_wait (some due) now = leb due now
claimable _ _ now = false

-- A waiting job enters the queue when it is claimed.
abbrev pub requeued_at : JobStatus → ℕ → ℕ → ℕ
requeued_at retry_wait queued_at now = now
requeued_at _ queued_at now = queued_at

abbrev pub claimed : EvaluationJob → String → ℕ → ℕ → EvaluationJob
claimed job worker_id now lease =
    started (record job { queued_at = requeued_at job.status job.queued_at now }) worker_id now
      lease

claimed-IsSound :
    (job : EvaluationJob) (worker_id : String) (now lease : ℕ)
    → IsSound job
    → is_pending job.status ≡ true
    → IsSound (claimed job worker_id now lease)
claimed-IsSound job worker_id now lease s p = ground arith

claimed-job_checks :
    (job : EvaluationJob) (worker_id : String) (now lease : ℕ)
    → IsSound job
    → is_pending job.status ≡ true
    → job_checks (claimed job worker_id now lease) ≡ true
unfolding job_checks
claimed-job_checks job worker_id now lease s p = ground arith

-- The columns and the checks of a claimed job leave the rest of the tables alone.
abbrev pub with_job : Database → EvaluationJob → Database
with_job db job = record db { jobs = put job_key job db.jobs }

pub claim_job-eq :
    (job : EvaluationJob) (worker_id : String) (now lease : ℕ) (db : Database)
    → IsSound job
    → claim_job job worker_id now lease db ≡ (
        if claimable job.status job.next_attempt_at now
        then ok
            (some (claimed job worker_id now lease), with_job db (claimed job worker_id now lease))
        else ok (none, db))
unfolding claim_job
claim_job-eq job worker_id now lease db s = ground (
  arith,
  claimed-job_checks job worker_id now lease s,
  update_job-ok (claimed job worker_id now lease) db,
)

-- On consistent tables and with the database up, a claim of a job that is there takes it when it is
-- queued or waits and is due, hands out the row that it stored, and otherwise answers none and
-- changes nothing.
pub claim-claimed :
    (evaluation_id : ℕ) (worker_id : String) (now lease : ℕ) (db : Database) (job : EvaluationJob)
    → IsConsistent db
    → find job_key evaluation_id db.jobs ≡ some job
    → claim up evaluation_id worker_id now lease db ≡ (
        if claimable job.status job.next_attempt_at now
        then (
          ok (some (claimed job worker_id now lease)),
          with_job db (claimed job worker_id now lease),
        )
        else (ok none, db))
unfolding claim claim_job
claim-claimed evaluation_id worker_id now lease db job c e =
    ground (
      arith,
      e,
      claim_job-eq job worker_id now lease db (find-IsHeld db evaluation_id job c e).sound,
    )

claimed-IsConsistent :
    (job : EvaluationJob) (worker_id : String) (now lease : ℕ) (db : Database)
    → IsConsistent db
    → IsHeld db job
    → is_pending job.status ≡ true
    → IsConsistent (with_job db (claimed job worker_id now lease))
claimed-IsConsistent job worker_id now lease db c h p =
    put-IsConsistent db (claimed job worker_id now lease) c
      (claimed-IsSound job worker_id now lease h.sound p) (λ q. absurd (ground arith))
      (ground (arith, h.stored))

claim_job-Keeps :
    (worker_id : String) (now lease : ℕ) (db : Database)
    → IsConsistent db
    → (job : EvaluationJob) → IsHeld db job
    → Keeps (claim_job job worker_id now lease db)
claim_job-Keeps worker_id now lease db c job h =
    rw (claim_job-eq job worker_id now lease db h.sound) (
      if-Ensures IsConsistent (claimable job.status job.next_attempt_at now) _ _
        (λ p. claimed-IsConsistent job worker_id now lease db c h (ground arith)) (λ _. c))

-- A claim keeps the tables consistent, whether its job is there or not and however the database
-- answers.
pub claim-IsConsistent :
    (link : Link) (evaluation_id : ℕ) (worker_id : String) (now lease : ℕ) (db : Database)
    → IsConsistent db
    → IsConsistent (claim link evaluation_id worker_id now lease db).1
unfolding claim claim_job
claim-IsConsistent link evaluation_id worker_id now lease db c =
    persistent-Ensures IsConsistent link (claim_body evaluation_id worker_id now lease) db c (
      found-Ensures IsConsistent (find job_key evaluation_id db.jobs) none db
        (λ job. claim_job job worker_id now lease db) c
        (λ job e.
          claim_job-Keeps worker_id now lease db c job (find-IsHeld db evaluation_id job c e)))

-- The job is running for this worker.
abbrev pub runs_for : EvaluationJob → String → Bool
runs_for job worker_id = is_running job.status && is_worker job.worker_id worker_id

renewed-IsSound :
    (job : EvaluationJob) (now lease : ℕ)
    → IsSound job
    → is_running job.status ≡ true
    → IsSound (renewed job now lease)
renewed-IsSound job now lease s r = ground arith

renewed-job_checks :
    (job : EvaluationJob) (now lease : ℕ) → IsSound job → job_checks (renewed job now lease) ≡ true
unfolding job_checks
renewed-job_checks job now lease s = ground arith

pub renew_job-eq :
    (job : EvaluationJob) (worker_id : String) (now lease : ℕ) (db : Database)
    → IsSound job
    → renew_job job worker_id now lease db ≡ (
        if runs_for job worker_id
        then ok (true, with_job db (renewed job now lease))
        else ok (false, db))
unfolding renew_job
renew_job-eq job worker_id now lease db s =
    ground (arith, renewed-job_checks job now lease s, update_job-ok (renewed job now lease) db)

renew_job-Keeps :
    (worker_id : String) (now lease : ℕ) (db : Database)
    → IsConsistent db
    → (job : EvaluationJob) → IsHeld db job
    → Keeps (renew_job job worker_id now lease db)
renew_job-Keeps worker_id now lease db c job h =
    rw (renew_job-eq job worker_id now lease db h.sound) (
      if-Ensures IsConsistent (runs_for job worker_id) _ _
        (λ p.
          put-IsConsistent db (renewed job now lease) c
            (renewed-IsSound job now lease h.sound (ground arith)) h.covered h.stored)
        (λ _. c))

-- A renewal keeps the tables consistent.
pub renew_lease-IsConsistent :
    (link : Link) (evaluation_id : ℕ) (worker_id : String) (now lease : ℕ) (db : Database)
    → IsConsistent db
    → IsConsistent (renew_lease link evaluation_id worker_id now lease db).1
unfolding renew_lease renew_job
renew_lease-IsConsistent link evaluation_id worker_id now lease db c =
    persistent-Ensures IsConsistent link (renew_body evaluation_id worker_id now lease) db c (
      found-Ensures IsConsistent (find job_key evaluation_id db.jobs) false db
        (λ job. renew_job job worker_id now lease db) c
        (λ job e.
          renew_job-Keeps worker_id now lease db c job (find-IsHeld db evaluation_id job c e)))
