-- ===== src/Jobs/Invariant/Failure.antt =====
-- record_failure and recover_stale keep the tables consistent.
use codejudge_ai.Base.{
  ℕ, suc, ◌≡◌, Bool, true, String, none, some, arith, ◌||◌, not, List, [], ◌∷◌, All, All-filter_of,
  All-both,
}
use codejudge_ai.Base.Errors.{ok}
use codejudge_ai.Base.Select.{All-select}
use codejudge_ai.Jobs.Invariant.Finish.{retry_or_fail-Keeps}
use codejudge_ai.Jobs.Invariant.Keeps.{Keeps, IsConsistentWith}
use codejudge_ai.Jobs.Transaction.Rules.{
  if-Ensures, found-Ensures, bind-Ensures, persistent-Ensures,
}
use codejudge_ai.Jobs.Invariant.{IsSound, IsStored, IsConsistent, IsHeld, find-IsHeld}
use codejudge_ai.Base.Table.{find}
use codejudge_ai.Jobs.Model.{job_key, Database, EvaluationJob, EvaluationSnapshot}
use codejudge_ai.Jobs.Repository.Claim.{is_worker}
use codejudge_ai.Jobs.Repository.Finish.{
  released, retry_or_fail, fail_job, failure_body, record_failure,
}
use codejudge_ai.Jobs.Repository.Recover.{
  sooner, stale_jobs, recover_job, recover_jobs, recover_stale,
}
use codejudge_ai.Jobs.Retry.{FailureDecision}
use codejudge_ai.Jobs.State.{is_running}
use codejudge_ai.Jobs.Transaction.{Link}

fail_job-Keeps :
    (worker_id : String) (decision : FailureDecision) (now base event_id : ℕ) (db : Database)
    → IsConsistent db
    → (job : EvaluationJob) → IsHeld db job
    → Keeps (fail_job job worker_id decision now base event_id db)
unfolding fail_job
fail_job-Keeps worker_id decision now base event_id db c job h =
    if-Ensures IsConsistent (not (is_running job.status) || not (is_worker job.worker_id worker_id))
      _ _ (λ _. c)
      λ p.
        bind-Ensures (IsConsistentWith db.evaluations) IsConsistent
          (retry_or_fail decision.retryable (released job decision.category decision.code now) now
            base event_id db)
          (λ status db'. ok (some status, db'))
          (retry_or_fail-Keeps job decision.category decision.code now base event_id db c h.sound
            (ground arith) h.stored decision.retryable)
          (λ _ db' k. k.0)

-- A recorded failure keeps the tables consistent.
pub record_failure-IsConsistent :
    (link : Link) (evaluation_id : ℕ) (worker_id : String) (decision : FailureDecision)
    (now base event_id : ℕ) (db : Database)
    → IsConsistent db
    → IsConsistent (record_failure link evaluation_id worker_id decision now base event_id db).1
unfolding record_failure fail_job
record_failure-IsConsistent link evaluation_id worker_id decision now base event_id db c =
    persistent-Ensures IsConsistent link
      (failure_body evaluation_id worker_id decision now base event_id) db c
      (found-Ensures IsConsistent (find job_key evaluation_id db.jobs) none db
        (λ job. fail_job job worker_id decision now base event_id db) c
        (λ job e.
          fail_job-Keeps worker_id decision now base event_id db c job
            (find-IsHeld db evaluation_id job c e)))

-- a job whose lease has run out, as the recovery selects it
pub record IsStalled (evaluations : List EvaluationSnapshot) (job : EvaluationJob) : Type 0 where
  pub sound : IsSound job
  pub held : is_running job.status ≡ true
  pub stored : IsStored evaluations job

recover_jobs-Keeps :
    (uuid : ℕ → ℕ) (now base n : ℕ) (jobs : List EvaluationJob) (db : Database)
    → IsConsistent db
    → All (IsStalled db.evaluations) jobs
    → Keeps (recover_jobs uuid now base n jobs db)
unfolding recover_jobs
recover_jobs-Keeps uuid now base n [] db c a = c
recover_jobs-Keeps uuid now base n (job ∷ jobs) db c a =
    bind-Ensures (IsConsistentWith db.evaluations) IsConsistent
      (recover_job now base (uuid n) job db) (λ _ db'. recover_jobs uuid now base (suc n) jobs db')
      (unfold recover_job in
        retry_or_fail-Keeps job "infrastructure" "worker_lease_expired" now base (uuid n) db c
          a.0.sound a.0.held a.0.stored true)
      (λ _ db' k. recover_jobs-Keeps uuid now base (suc n) jobs db' k.0 (rw k.1 a.1))

pub stale_jobs-IsStalled :
    (locked : ℕ → Bool) (now limit : ℕ) (db : Database)
    → IsConsistent db
    → All (IsStalled db.evaluations) (stale_jobs locked now limit db)
unfolding stale_jobs
stale_jobs-IsStalled locked now limit db c =
    All-select (IsStalled db.evaluations) _ sooner limit db.jobs (
      All-filter_of (λ job. IsSound job × IsStored db.evaluations job) (IsStalled db.evaluations) _
        (λ job p h. record { sound = h.0; held = ground arith; stored = h.1 }) db.jobs
        (All-both IsSound (IsStored db.evaluations) db.jobs c.sound c.stored))

-- A recovery keeps the tables consistent, whichever rows it finds locked.
pub recover_stale-IsConsistent :
    (link : Link) (uuid : ℕ → ℕ) (locked : ℕ → Bool) (now base limit : ℕ) (db : Database)
    → IsConsistent db
    → IsConsistent (recover_stale link uuid locked now base limit db).1
unfolding recover_stale
recover_stale-IsConsistent link uuid locked now base limit db c =
    persistent-Ensures IsConsistent link
      (λ db'. recover_jobs uuid now base 0 (stale_jobs locked now limit db') db') db c
      (recover_jobs-Keeps uuid now base 0 (stale_jobs locked now limit db) db c
        (stale_jobs-IsStalled locked now limit db c))
