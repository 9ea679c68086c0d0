-- ===== src/Jobs/Refinement/Claim.antt =====
-- claim and renew_lease move a job along its lifecycle.
use codejudge_ai.Base.{ℕ, ◌≡◌, String, none, some, false}
use codejudge_ai.Base.Table.{find}
use codejudge_ai.Jobs.Invariant.Claim.{claimable, claimed, claim_job-eq, runs_for, renew_job-eq}
use codejudge_ai.Jobs.Invariant.{IsConsistent, find-IsHeld}
use codejudge_ai.Jobs.Lifecycle.{claims, renews, once}
use codejudge_ai.Jobs.Model.{Database, EvaluationJob, job_key}
use codejudge_ai.Jobs.Refinement.{MovesTo, Moves, Moved-refl, Moved-put}
use codejudge_ai.Jobs.Repository.Claim.{
  claim_job, claim_body, claim, renewed, renew_job, renew_body, renew_lease,
}
use codejudge_ai.Jobs.Transaction.Rules.{if-Ensures, found-Ensures, persistent-Ensures}
use codejudge_ai.Jobs.Transaction.{Link}

claim_job-Moves :
    (k : ℕ) (worker_id : String) (now lease : ℕ) (db : Database)
    → IsConsistent db
    → (job : EvaluationJob) → find job_key k db.jobs ≡ some job
    → Moves db (claim_job job worker_id now lease db)
claim_job-Moves k worker_id now lease db c job e =
    rw (claim_job-eq job worker_id now lease db (find-IsHeld db k job c e).sound) (
      if-Ensures (MovesTo db) (claimable job.status job.next_attempt_at now) _ _
        (λ p.
          Moved-put db.jobs k job (claimed job worker_id now lease) e
            (once (claims worker_id now lease p)))
        (λ _. Moved-refl db.jobs))

pub claim-MovesTo :
    (link : Link) (evaluation_id : ℕ) (worker_id : String) (now lease : ℕ) (db : Database)
    → IsConsistent db
    → MovesTo db (claim link evaluation_id worker_id now lease db).1
unfolding claim claim_job
claim-MovesTo link evaluation_id worker_id now lease db c =
    persistent-Ensures (MovesTo db) link (claim_body evaluation_id worker_id now lease) db
      (Moved-refl db.jobs)
      (found-Ensures (MovesTo db) (find job_key evaluation_id db.jobs) none db
        (λ job. claim_job job worker_id now lease db) (Moved-refl db.jobs)
        (claim_job-Moves evaluation_id worker_id now lease db c))

renew_job-Moves :
    (k : ℕ) (worker_id : String) (now lease : ℕ) (db : Database)
    → IsConsistent db
    → (job : EvaluationJob) → find job_key k db.jobs ≡ some job
    → Moves db (renew_job job worker_id now lease db)
renew_job-Moves k worker_id now lease db c job e =
    rw (renew_job-eq job worker_id now lease db (find-IsHeld db k job c e).sound) (
      if-Ensures (MovesTo db) (runs_for job worker_id) _ _
        (λ p.
          Moved-put db.jobs k job (renewed job now lease) e (once (renews worker_id now lease p)))
        (λ _. Moved-refl db.jobs))

pub renew_lease-MovesTo :
    (link : Link) (evaluation_id : ℕ) (worker_id : String) (now lease : ℕ) (db : Database)
    → IsConsistent db
    → MovesTo db (renew_lease link evaluation_id worker_id now lease db).1
unfolding renew_lease renew_job
renew_lease-MovesTo link evaluation_id worker_id now lease db c =
    persistent-Ensures (MovesTo db) link (renew_body evaluation_id worker_id now lease) db
      (Moved-refl db.jobs)
      (found-Ensures (MovesTo db) (find job_key evaluation_id db.jobs) false db
        (λ job. renew_job job worker_id now lease db) (Moved-refl db.jobs)
        (renew_job-Moves evaluation_id worker_id now lease db c))
