-- ===== src/Jobs/Refinement/Steps.antt =====
-- The refinement: whatever calls are made, every job follows its lifecycle.
use codejudge_ai.Base.{
  List, [], ◌∷◌, ◌++◌, false, ℕ, ◌+◌, ◌≤◌, ◌≡◌, ◌∙◌, refl, sym, ap, true, some, arith, is_some,
}
use codejudge_ai.Base.Table.{find, find-append, All-find}
use codejudge_ai.Jobs.History.{
  Step, inserts, claims, renews, completes, fails, recovers, publishes, defers, Reach, here, next,
  Reach-IsConsistent,
}
use codejudge_ai.Jobs.Invariant.Create.{create_body-eq, insertable}
use codejudge_ai.Jobs.Invariant.{IsSound, IsConsistent}
use codejudge_ai.Jobs.Lifecycle.{
  Evolves*, stays, claims_in, claims_in-attempts, submission-constant, terminal_stays,
}
use codejudge_ai.Jobs.Invariant.Outbox.{defer_event-eq}
use codejudge_ai.Jobs.Model.{Database, EvaluationJob, job_key, event_key}
use codejudge_ai.Jobs.Refinement.Claim.{claim-MovesTo, renew_lease-MovesTo}
use codejudge_ai.Jobs.Refinement.Finish.{complete-MovesTo, record_failure-MovesTo}
use codejudge_ai.Jobs.Refinement.Recover.{recover_stale-MovesTo}
use codejudge_ai.Jobs.Refinement.{Moved, MovesTo, Moved-refl, Moved-trans}
use codejudge_ai.Jobs.Repository.Create.{create_body}
use codejudge_ai.Jobs.Repository.Outbox.{
  publish_event, published_body, mark_outbox_published, defer_event, failed_body,
  mark_outbox_failed,
}
use codejudge_ai.Jobs.Service.{new_job}
use codejudge_ai.Jobs.State.{is_terminal}
use codejudge_ai.Jobs.Transaction.Rules.{
  if-Ensures, found-Ensures, persistent-Ensures, transaction-Ensures,
}
use codejudge_ai.Jobs.Transaction.{Link, transaction}

Moved-append : (jobs : List EvaluationJob) (job : EvaluationJob) → Moved jobs (jobs ++ job ∷ [])
Moved-append jobs job k other e = (other, rw (find-append job_key k jobs (job ∷ []), e) refl, stays)

insertion-MovesTo :
    (link : Link) (job : EvaluationJob) (event_id : ℕ) (db : Database)
    → MovesTo db (transaction link (create_body job event_id) db).1
insertion-MovesTo link job event_id db =
    transaction-Ensures (MovesTo db) link (create_body job event_id) db (Moved-refl db.jobs) (
      rw (create_body-eq job event_id db) (
        if-Ensures (MovesTo db) (insertable job event_id db) _ _ (λ _. Moved-append db.jobs job)
          (λ _. tt)))

publication-MovesTo :
    (link : Link) (event_id now : ℕ) (db : Database)
    → MovesTo db (mark_outbox_published link event_id now db).1
unfolding mark_outbox_published publish_event
publication-MovesTo link event_id now db =
    persistent-Ensures (MovesTo db) link (published_body event_id now) db (Moved-refl db.jobs) (
      found-Ensures (MovesTo db) (find event_key event_id db.outbox) false db
        (λ event. publish_event event now db) (Moved-refl db.jobs)
        (λ event _.
          if-Ensures (MovesTo db) (is_some event.published_at) _ _ (λ _. Moved-refl db.jobs)
            (λ _. Moved-refl db.jobs)))

deferral-MovesTo :
    (link : Link) (event_id now base : ℕ) (db : Database)
    → MovesTo db (mark_outbox_failed link event_id now base db).1
unfolding mark_outbox_failed
deferral-MovesTo link event_id now base db =
    persistent-Ensures (MovesTo db) link (failed_body event_id now base) db (Moved-refl db.jobs) (
      found-Ensures (MovesTo db) (find event_key event_id db.outbox) false db
        (λ event. defer_event event now base db) (Moved-refl db.jobs)
        (λ event _. rw (defer_event-eq event now base db) (
          if-Ensures (MovesTo db) (is_some event.published_at) _ _ (λ _. Moved-refl db.jobs)
            (λ _. Moved-refl db.jobs))))

Step-MovesTo : {db db' : Database} → Step db db' → IsConsistent db → MovesTo db db'
Step-MovesTo {db} (inserts link submission event_id new) c =
    insertion-MovesTo link (new_job submission) event_id db
Step-MovesTo {db} (claims link evaluation_id worker_id now lease) c =
    claim-MovesTo link evaluation_id worker_id now lease db c
Step-MovesTo {db} (renews link evaluation_id worker_id now lease) c =
    renew_lease-MovesTo link evaluation_id worker_id now lease db c
Step-MovesTo {db} (completes link again between evaluation_id worker_id snapshot now) c =
    complete-MovesTo link again between evaluation_id worker_id snapshot now db c
Step-MovesTo {db} (fails link evaluation_id worker_id decision now base event_id) c =
    record_failure-MovesTo link evaluation_id worker_id decision now base event_id db c
Step-MovesTo {db} (recovers link uuid locked now base limit) c =
    recover_stale-MovesTo link uuid locked now base limit db c
Step-MovesTo {db} (publishes link event_id now) c = publication-MovesTo link event_id now db
Step-MovesTo {db} (defers link event_id now base ready) c =
    deferral-MovesTo link event_id now base db

-- In any history of calls from consistent tables no job is lost, and each job is changed only by
-- the transitions of the lifecycle: claims when queued or due, renewals and completions by the
-- worker that runs it, retries with attempts left, and ends.
pub Reach-MovesTo : {db db' : Database} → Reach db db' → IsConsistent db → MovesTo db db'
Reach-MovesTo {db} here c = Moved-refl db.jobs
Reach-MovesTo {db} (next {middle = middle} {last = last} r s) c =
    Moved-trans db.jobs middle.jobs last.jobs (Reach-MovesTo r c)
      (Step-MovesTo s (Reach-IsConsistent r c))

-- In any history of calls from consistent tables, the attempts of a job so far and the claims of it
-- that follow are together at most its maximum of attempts.
pub claims_bounded :
    {db db' : Database} (r : Reach db db') (k : ℕ) (job : EvaluationJob)
    → IsConsistent db
    → find job_key k db.jobs ≡ some job
    → (last : EvaluationJob) × (find job_key k db'.jobs ≡ some last)
      × (chain : Evolves* job last) × (job.attempt_count + claims_in chain ≤ job.max_attempts)
claims_bounded {db} {db'} r k job c e =
    let (last, found, chain) = Reach-MovesTo r c k job e in
    let sound = All-find job_key IsSound k db'.jobs last (Reach-IsConsistent r c).sound found in
    let same : last.max_attempts ≡ job.max_attempts =
      ap (λ s. s.max_attempts) (sym (submission-constant chain)) in
    (last, found, chain, omega (arith, claims_in-attempts chain, sound.attempts, same))

-- In any history of calls from consistent tables, a completed or failed job keeps its row
-- unchanged.
pub terminal_forever :
    {db db' : Database} (r : Reach db db') (k : ℕ) (job : EvaluationJob)
    → IsConsistent db
    → find job_key k db.jobs ≡ some job
    → is_terminal job.status ≡ true
    → find job_key k db'.jobs ≡ some job
terminal_forever r k job c e t =
    let (last, found, chain) = Reach-MovesTo r c k job e in
    found ∙ ap some (sym (terminal_stays t chain))
