-- ===== src/Jobs/Lifecycle.antt =====
-- The lifecycle of one job as a state machine of whole rows, which the repository refines.
use codejudge_ai.Base.{ℕ, ◌+◌, ◌<◌, ◌≡◌, refl, true, String, arith, ◌⊎◌, inl}
use codejudge_ai.Jobs.Invariant.Claim.{claimable, claimed, runs_for}
use codejudge_ai.Jobs.Invariant.Finish.{retried, stopped}
use codejudge_ai.Jobs.Model.{EvaluationJob}
use codejudge_ai.Jobs.Repository.Claim.{renewed}
use codejudge_ai.Jobs.Repository.Finish.{finished}
use codejudge_ai.Jobs.State.{JobStatus, queued, transitions, is_running, is_terminal}

-- One transition of a job.
pub data Evolves (job : EvaluationJob) : EvaluationJob → Type 0 where
  claims :
      (worker_id : String) (now lease : ℕ)
      → claimable job.status job.next_attempt_at now ≡ true
      → Evolves job (claimed job worker_id now lease)
  renews :
      (worker_id : String) (now lease : ℕ)
      → runs_for job worker_id ≡ true
      → Evolves job (renewed job now lease)
  completes :
      (worker_id : String) (now : ℕ)
      → runs_for job worker_id ≡ true
      → Evolves job (finished job now)
  retries :
      (category code : String) (now base : ℕ)
      → is_running job.status ≡ true
      → job.attempt_count < job.max_attempts
      → Evolves job (retried job category code now base)
  stops :
      (category code : String) (now : ℕ)
      → is_running job.status ≡ true
      → Evolves job (stopped job category code now)

pub data Evolves* : EvaluationJob → EvaluationJob → Type 0 where
  stays : {job : EvaluationJob} → Evolves* job job
  follows :
      {job middle last : EvaluationJob}
      → Evolves job middle
      → Evolves* middle last
      → Evolves* job last

pub once : {job last : EvaluationJob} → Evolves job last → Evolves* job last
once e = follows e stays

-- A move of the source's table, taken twice when a waiting job goes through the queue.
abbrev pub Allowed : JobStatus → JobStatus → Type 0
Allowed s t =
    (s ≡ t)
    ⊎ (transitions s t ≡ true)
    ⊎ ((transitions s queued ≡ true) × (transitions queued t ≡ true))

-- Every transition of the lifecycle of a job keeps its status, is a move of the table _TRANSITIONS,
-- or is two such moves by way of queued.
pub Evolves-Allowed : {job last : EvaluationJob} → Evolves job last → Allowed job.status last.status
unfolding transitions
Evolves-Allowed (claims worker_id now lease h) = ground arith
Evolves-Allowed (renews worker_id now lease h) = inl refl
Evolves-Allowed (completes worker_id now h) = ground arith
Evolves-Allowed (retries category code now base h left) = ground arith
Evolves-Allowed (stops category code now h) = ground arith

-- how often a chain of transitions claims the job
pub claims_in : {job last : EvaluationJob} → Evolves* job last → ℕ
claims_in stays = 0
claims_in (follows (claims worker_id now lease h) rest) = claims_in rest + 1
claims_in (follows (renews worker_id now lease h) rest) = claims_in rest
claims_in (follows (completes worker_id now h) rest) = claims_in rest
claims_in (follows (retries category code now base h left) rest) = claims_in rest
claims_in (follows (stops category code now h) rest) = claims_in rest

-- The attempt count is the number of claims.
pub claims_in-attempts :
    {job last : EvaluationJob} (chain : Evolves* job last)
    → job.attempt_count + claims_in chain ≡ last.attempt_count
unfolding claims_in
claims_in-attempts stays = omega arith
claims_in-attempts (follows (claims worker_id now lease h) rest) =
    omega (arith, claims_in-attempts rest)
claims_in-attempts (follows (renews worker_id now lease h) rest) = claims_in-attempts rest
claims_in-attempts (follows (completes worker_id now h) rest) = claims_in-attempts rest
claims_in-attempts (follows (retries category code now base h left) rest) = claims_in-attempts rest
claims_in-attempts (follows (stops category code now h) rest) = claims_in-attempts rest

-- What was submitted never changes.
pub submission-constant :
    {job last : EvaluationJob} → Evolves* job last → job.submission ≡ last.submission
submission-constant stays = refl
submission-constant (follows (claims worker_id now lease h) rest) = submission-constant rest
submission-constant (follows (renews worker_id now lease h) rest) = submission-constant rest
submission-constant (follows (completes worker_id now h) rest) = submission-constant rest
submission-constant (follows (retries category code now base h left) rest) =
    submission-constant rest
submission-constant (follows (stops category code now h) rest) = submission-constant rest

-- A completed or failed job has no transition.
terminal_stuck : {job last : EvaluationJob} → is_terminal job.status ≡ true → Evolves job last → ⊥
terminal_stuck t (claims worker_id now lease h) = ground arith
terminal_stuck t (renews worker_id now lease h) = ground arith
terminal_stuck t (completes worker_id now h) = ground arith
terminal_stuck t (retries category code now base h left) = ground arith
terminal_stuck t (stops category code now h) = ground arith

pub terminal_stays :
    {job last : EvaluationJob} → is_terminal job.status ≡ true → Evolves* job last → job ≡ last
terminal_stays t stays = refl
terminal_stays t (follows e rest) = absurd (terminal_stuck t e)
