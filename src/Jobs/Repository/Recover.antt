-- ===== src/Jobs/Repository/Recover.antt =====
-- recover_stale of app/jobs/repositories.py. `locked` tells the rows that other transactions hold,
-- which SKIP LOCKED passes over, and `uuid i` is the i-th id drawn by the call.
use codejudge_ai.Base.{
  ℕ, suc, Bool, true, false, Option, none, some, List, [], ◌∷◌, ltb, ◌&&◌, not, or_else,
}
use codejudge_ai.Base.Errors.{Result}
use codejudge_ai.Base.Select.{select}
use codejudge_ai.Jobs.Model.{Database, EvaluationJob}
use codejudge_ai.Jobs.Repository.Finish.{released, retry_or_fail}
use codejudge_ai.Jobs.State.{JobStatus, is_running}
use codejudge_ai.Jobs.Transaction.{Session, Link, ◌>>=◌, pure, persistent}

-- `lease_expires_at < now`, which is not true of NULL
abbrev pub expired : Option ℕ → ℕ → Bool
expired none now = false
expired (some expires_at) now = ltb expires_at now

abbrev pub is_stale : ℕ → EvaluationJob → Bool
is_stale now job = is_running job.status && expired job.lease_expires_at now

-- ORDER BY lease_expires_at, over rows with a lease
abbrev pub sooner : EvaluationJob → EvaluationJob → Bool
sooner a b = ltb (or_else a.lease_expires_at 0) (or_else b.lease_expires_at 0)

unfoldable pub stale_jobs : (ℕ → Bool) → ℕ → ℕ → Database → List EvaluationJob
stale_jobs locked now limit db =
    select (λ job. is_stale now job && not (locked job.evaluation_id)) sooner limit db.jobs

-- the body of the loop
unfoldable pub recover_job : ℕ → ℕ → ℕ → EvaluationJob → Session JobStatus
recover_job now base event_id job =
    retry_or_fail true (released job "infrastructure" "worker_lease_expired" now) now base event_id

unfoldable pub recover_jobs : (ℕ → ℕ) → ℕ → ℕ → ℕ → List EvaluationJob → Session ℕ
recover_jobs uuid now base recovered [] = pure recovered
recover_jobs uuid now base recovered (job ∷ jobs) =
    let rest = recover_jobs uuid now base (suc recovered) jobs in
    recover_job now base (uuid recovered) job >>= λ _. rest

unfoldable pub recover_stale :
    Link → (ℕ → ℕ) → (ℕ → Bool) → ℕ → ℕ → ℕ → Database → Result ℕ × Database
unfolding recover_jobs recover_job stale_jobs persistent
recover_stale link uuid locked now base limit =
    persistent link λ db. recover_jobs uuid now base 0 (stale_jobs locked now limit db) db
