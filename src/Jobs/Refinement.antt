-- ===== src/Jobs/Refinement.antt =====
-- Every call of the repository moves each job along the lifecycle, and loses none.
pub mod Claim
pub mod Finish
pub mod Recover
pub mod Steps
use mathlib.Core.Path.{subst}
use codejudge_ai.Base.{
  ℕ, ◌≡◌, ◌∙◌, refl, sym, ap, true, some, arith, ◌==◌, ==_iff, Bool-cases, inl, inr, List,
}
use codejudge_ai.Base.Errors.{Result}
use codejudge_ai.Base.Table.{find, put, find-put, key-find}
use codejudge_ai.Jobs.Lifecycle.{Evolves*, stays, follows, submission-constant}
use codejudge_ai.Jobs.Model.{Database, EvaluationJob, job_key}
use codejudge_ai.Jobs.Transaction.Rules.{Ensures}

-- Each job of the one table is in the other, further on in its lifecycle.
abbrev pub Moved : List EvaluationJob → List EvaluationJob → Type 0
Moved jobs jobs' =
    (k : ℕ) (job : EvaluationJob)
    → find job_key k jobs ≡ some job
    → (last : EvaluationJob) × (find job_key k jobs' ≡ some last) × Evolves* job last

abbrev pub MovesTo : Database → Database → Type 0
MovesTo db db' = Moved db.jobs db'.jobs

-- What a body that commits leaves has every job further on.
abbrev pub Moves {ℓ} : {A : Type ℓ} → Database → Result (A × Database) → Type 0
Moves db = Ensures (MovesTo db)

pub Evolves*-trans : {a b c : EvaluationJob} → Evolves* a b → Evolves* b c → Evolves* a c
Evolves*-trans stays r = r
Evolves*-trans (follows e rest) r = follows e (Evolves*-trans rest r)

pub Moved-refl : (jobs : List EvaluationJob) → Moved jobs jobs
Moved-refl jobs k job e = (job, e, stays)

pub Moved-trans : (a b c : List EvaluationJob) → Moved a b → Moved b c → Moved a c
Moved-trans a b c m n k job e =
    let (middle, found, first) = m k job e in
    let (last, found', second) = n k middle found in (last, found', Evolves*-trans first second)

-- The update of one job's row by a later one.
pub Moved-put :
    (jobs : List EvaluationJob) (k : ℕ) (job last : EvaluationJob)
    → find job_key k jobs ≡ some job
    → Evolves* job last
    → Moved jobs (put job_key last jobs)
Moved-put jobs k job last found e j other found' = elim (Bool-cases (job_key last == j)) [
  | inl here ↦ (
    last,
    rw (find-put job_key j last jobs, here, found') refl,
    subst (λ start. Evolves* start last) (job_is_other here) e,
  )
  | inr there ↦ (other, rw (find-put job_key j last jobs, there) found', stays)
]
  where
    job_is_other : (job_key last == j) ≡ true → job ≡ other
    job_is_other h =
        let k_is_j : k ≡ j =
          sym (key-find job_key k jobs job found)
          ∙ ap (λ s. s.evaluation_id) (submission-constant e)
          ∙ (==_iff _ _).0 h in
        let both : some job ≡ some other =
          sym found ∙ ap (λ n. find job_key n jobs) k_is_j ∙ found' in
        cc
