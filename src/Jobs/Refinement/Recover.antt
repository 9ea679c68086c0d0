-- ===== src/Jobs/Refinement/Recover.antt =====
-- recover_stale retries or stops each job that it selects, once.
use codejudge_ai.Base.{
  Bool, ℕ, suc, ◌≡◌, ◌≢◌, sym, ap, true, arith, List, [], ◌∷◌, All, All-map, All-both,
}
use codejudge_ai.Base.Select.{Found, Found-select, Distinct-select}
use codejudge_ai.Base.Table.{find-put, Distinct}
use codejudge_ai.Jobs.Invariant.Failure.{IsStalled, stale_jobs-IsStalled}
use codejudge_ai.Jobs.Invariant.{IsConsistent}
use codejudge_ai.Jobs.Lifecycle.{submission-constant}
use codejudge_ai.Jobs.Model.{Database, EvaluationJob, EvaluationSnapshot, job_key}
use codejudge_ai.Jobs.Refinement.Finish.{Updates, retry_or_fail-Updates, Updates-MovesTo}
use codejudge_ai.Jobs.Refinement.{MovesTo, Moves, Moved-refl, Moved-trans}
use codejudge_ai.Jobs.Repository.Recover.{
  sooner, stale_jobs, recover_job, recover_jobs, recover_stale,
}
use codejudge_ai.Jobs.Transaction.Rules.{map-Ensures, bind-Ensures, persistent-Ensures}
use codejudge_ai.Jobs.Transaction.{Link}

-- The rows of other jobs are found as before.
Found-still :
    (db db' : Database) (job : EvaluationJob)
    → Updates db job db'
    → (other : EvaluationJob) → job_key job ≢ job_key other
    → Found job_key db.jobs other
    → Found job_key db'.jobs other
Found-still db db' job (last, same, further) other apart found =
    let e : job_key last ≡ job_key job =
      ap (λ s. s.evaluation_id) (sym (submission-constant further)) in
    rw (same, find-put job_key (job_key other) last db.jobs) (ground (arith, e))

recover_jobs-Moves :
    (uuid : ℕ → ℕ) (now base n : ℕ) (jobs : List EvaluationJob)
    (evaluations : List EvaluationSnapshot) (db : Database)
    → All (IsStalled evaluations) jobs
    → All (Found job_key db.jobs) jobs
    → Distinct job_key jobs
    → Moves db (recover_jobs uuid now base n jobs db)
unfolding recover_jobs
recover_jobs-Moves uuid now base n [] evaluations db a f d = Moved-refl db.jobs
recover_jobs-Moves uuid now base n (job ∷ jobs) evaluations db a f d =
    bind-Ensures (Updates db job) (MovesTo db) (recover_job now base (uuid n) job db)
      (λ _ db'. recover_jobs uuid now base (suc n) jobs db')
      (unfold recover_job in
        retry_or_fail-Updates true job "infrastructure" "worker_lease_expired" now base (uuid n) db
          a.0.sound a.0.held)
      λ _ db' u.
        map-Ensures (MovesTo db') (MovesTo db) (recover_jobs uuid now base (suc n) jobs db')
          (λ last m.
            Moved-trans db.jobs db'.jobs last.jobs (Updates-MovesTo db (job_key job) job f.0 db' u)
              m)
          (recover_jobs-Moves uuid now base (suc n) jobs evaluations db' a.1
            (All-map (λ other. (job_key job ≢ job_key other) × Found job_key db.jobs other)
              (Found job_key db'.jobs) (λ other h. Found-still db db' job u other h.0 h.1) jobs
              (All-both (λ other. job_key job ≢ job_key other) (Found job_key db.jobs) jobs d.0
                f.1))
            d.1)

pub recover_stale-MovesTo :
    (link : Link) (uuid : ℕ → ℕ) (locked : ℕ → Bool) (now base limit : ℕ) (db : Database)
    → IsConsistent db
    → MovesTo db (recover_stale link uuid locked now base limit db).1
unfolding recover_stale
recover_stale-MovesTo link uuid locked now base limit db c =
    persistent-Ensures (MovesTo db) link
      (λ db'. recover_jobs uuid now base 0 (stale_jobs locked now limit db') db') db
      (Moved-refl db.jobs)
      (recover_jobs-Moves uuid now base 0 (stale_jobs locked now limit db) db.evaluations db
        (stale_jobs-IsStalled locked now limit db c)
        (unfold stale_jobs in Found-select job_key sooner _ limit db.jobs c.distinct)
        (unfold stale_jobs in Distinct-select job_key sooner _ limit db.jobs c.distinct))
