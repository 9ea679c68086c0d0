-- ===== src/Jobs/Ownership.antt =====
-- What the calls answer when the database is up: the exact outcome of complete and record_failure,
-- the fence against a worker that lost its job, and the way from an outbox event to a claim.
use codejudge_ai.Base.{
  ℕ, ◌+◌, ◌≤◌, ◌≡◌, ◌∙◌, sym, ap, true, false, String, none, some, arith, ◌&&◌, ltb, ==_refl,
  if◌then◌else◌, is_some, or_else, Any, Any-map,
}
use codejudge_ai.Base.Errors.{ok, raise, persistence_error}
use codejudge_ai.Base.Table.{find, key-find}
use codejudge_ai.Jobs.Invariant.Claim.{
  claimable, claimed, claim-claimed, runs_for, renew_job-eq, with_job,
}
use codejudge_ai.Jobs.Invariant.Complete.{complete_job-eq, with_snapshot}
use codejudge_ai.Jobs.Invariant.Finish.{stopped, with_retry, retry_or_fail-eq}
use codejudge_ai.Jobs.Invariant.{Covers, is_waiting, IsConsistent, find-IsHeld}
use codejudge_ai.Jobs.Model.{
  Database, EvaluationJob, EvaluationSnapshot, OutboxEvent, job_key, event_key,
}
use codejudge_ai.Jobs.Repository.Claim.{claim, renew_job, renew_lease}
use codejudge_ai.Jobs.Repository.Finish.{complete_job, complete, fail_job, record_failure}
use codejudge_ai.Jobs.Retry.{FailureDecision}
use codejudge_ai.Jobs.State.{retry_wait, failed, is_pending, is_completed}
use codejudge_ai.Jobs.Transaction.{Link, up}

module _ (job : EvaluationJob) (evaluation_id : ℕ) (worker_id : String) (now : ℕ) (db : Database)
    (c : IsConsistent db) (e : find job_key evaluation_id db.jobs ≡ some job) where
  -- On consistent tables and with the database up, complete with the snapshot of the job answers
  -- true and changes nothing when the job is completed, stores the snapshot and the status when the
  -- worker runs it, and answers false and changes nothing otherwise.
  pub complete-eq :
      (again : Link) (between : Database → Database) (snapshot : EvaluationSnapshot)
      → snapshot.evaluation_id ≡ evaluation_id
      → complete up again between evaluation_id worker_id snapshot now db ≡ (
          if is_completed job.status
          then (ok true, db)
          else if runs_for job worker_id
          then (ok true, with_snapshot db job snapshot now)
          else (ok false, db))
  unfolding complete complete_job
  complete-eq again between snapshot same = ground (
    arith,
    e,
    same,
    ==_refl evaluation_id,
    complete_job-eq job worker_id snapshot now db (find-IsHeld db evaluation_id job c e)
        (same ∙ sym (key-find job_key evaluation_id db.jobs job e)),
  )

  pub renew_lease-eq :
      (lease : ℕ)
      → renew_lease up evaluation_id worker_id now lease db ≡ (
          if runs_for job worker_id
          then (
            ok true,
            with_job db (record job { lease_expires_at = some (now + lease); updated_at = now }),
          )
          else (ok false, db))
  unfolding renew_lease renew_job
  renew_lease-eq lease = ground (
    arith,
    e,
    renew_job-eq job worker_id now lease db (find-IsHeld db evaluation_id job c e).sound,
  )

  -- On consistent tables and with the database up, record_failure by the worker that runs the job
  -- schedules another attempt with its outbox event while the failure is retryable and attempts are
  -- left (an error if the new event id is taken), and ends the job otherwise; from any other worker
  -- it changes nothing.
  pub record_failure-eq :
      (decision : FailureDecision) (base event_id : ℕ)
      → record_failure up evaluation_id worker_id decision now base event_id db ≡ (
          if runs_for job worker_id
          then if decision.retryable && ltb job.attempt_count job.max_attempts
            then if is_some (find event_key event_id db.outbox)
              then (raise persistence_error, db)
              else (
                ok (some retry_wait),
                with_retry db job decision.category decision.code now base event_id,
              )
            else (ok (some failed), with_job db (stopped job decision.category decision.code now))
          else (ok none, db))
  unfolding record_failure fail_job
  record_failure-eq decision base event_id = ground (
    arith,
    e,
    retry_or_fail-eq decision.retryable job decision.category decision.code now base event_id db
        (find-IsHeld db evaluation_id job c e).sound,
  )

-- In consistent tables and with the database up, a worker that does not run a job, which is not
-- completed, can neither renew its lease, complete it with its own snapshot nor fail it: the calls
-- answer false, false and none and change nothing.
pub stale_worker-fenced :
    (job : EvaluationJob) (evaluation_id : ℕ) (worker_id : String) (now lease base event_id : ℕ)
    (again : Link) (between : Database → Database) (snapshot : EvaluationSnapshot)
    (decision : FailureDecision) (db : Database)
    → IsConsistent db
    → find job_key evaluation_id db.jobs ≡ some job
    → runs_for job worker_id ≡ false
    → is_completed job.status ≡ false
    → snapshot.evaluation_id ≡ evaluation_id
    → (renew_lease up evaluation_id worker_id now lease db ≡ (ok false, db))
      × (complete up again between evaluation_id worker_id snapshot now db ≡ (ok false, db))
      × (record_failure up evaluation_id worker_id decision now base event_id db ≡ (ok none, db))
stale_worker-fenced job evaluation_id worker_id now lease base event_id again between snapshot
      decision db c e other unfinished same =
    (
      renew_lease-eq job evaluation_id worker_id now db c e lease ∙ rw other,
      complete-eq job evaluation_id worker_id now db c e again between snapshot same
          ∙ rw (unfinished, other),
      record_failure-eq job evaluation_id worker_id now db c e decision base event_id ∙ rw other,
    )

-- The event leads a worker to the job: a claim at its time or later takes the job.
abbrev pub LeadsTo : Database → EvaluationJob → ℕ → OutboxEvent → Type 0
LeadsTo db job evaluation_id event =
    (event.aggregate_id ≡ evaluation_id)
    × ((worker_id : String) (now lease : ℕ)
        → event.next_attempt_at ≤ now
        → (claim up evaluation_id worker_id now lease db).0
          ≡ ok (some (claimed job worker_id now lease)))

due_claimable :
    (job : EvaluationJob) (event : OutboxEvent) (now : ℕ)
    → is_some job.next_attempt_at ≡ is_waiting job.status
    → is_pending job.status ≡ true
    → or_else job.next_attempt_at 0 ≤ event.next_attempt_at
    → event.next_attempt_at ≤ now
    → claimable job.status job.next_attempt_at now ≡ true
due_claimable job event now due p early late = ground arith

-- In consistent tables a pending job has an outbox event with its id, and with the database up a
-- worker that claims the job at or after the due time of that event gets it.
pub pending-announced :
    (db : Database) (evaluation_id : ℕ) (job : EvaluationJob)
    → IsConsistent db
    → find job_key evaluation_id db.jobs ≡ some job
    → is_pending job.status ≡ true
    → Any (LeadsTo db job evaluation_id) db.outbox
pending-announced db evaluation_id job c e p =
    let h = find-IsHeld db evaluation_id job c e in
    Any-map (Covers job) (LeadsTo db job evaluation_id)
      (λ event covers. (
        covers.0 ∙ key-find job_key evaluation_id db.jobs job e,
        λ worker_id now lease late.
            ap (λ r. r.0) (claim-claimed evaluation_id worker_id now lease db job c e)
            ∙ rw (due_claimable job event now h.sound.due p covers.1 late),
      ))
      db.outbox (h.covered p)
