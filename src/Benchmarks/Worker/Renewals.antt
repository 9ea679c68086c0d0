-- ===== src/Benchmarks/Worker/Renewals.antt =====
-- The tries to renew a lease are a history of the repository's calls.
use codejudge_ai.Base.{ℕ, String, Option, none, some, List, [], ◌∷◌, leb, if-elim}
use codejudge_ai.Base.Errors.{Result, ok, raise}
use codejudge_ai.Benchmarks.Invariant.Histories.{SampleStep, SampleStep-IsConsistent, renews}
use codejudge_ai.Benchmarks.Invariant.{IsConsistent}
use codejudge_ai.Benchmarks.Model.{BenchmarkTables}
use codejudge_ai.Benchmarks.Worker.Lease.{Round, Confirmed, after_renewal, renew_before_expiry}

pub data SampleReach (start : BenchmarkTables) : BenchmarkTables → Type 0 where
  here : SampleReach start start
  next :
      {db db' : BenchmarkTables} → SampleReach start db → SampleStep db db' → SampleReach start db'

pub SampleReach-trans :
    {a b c : BenchmarkTables} → SampleReach a b → SampleReach b c → SampleReach a c
SampleReach-trans p here = p
SampleReach-trans p (next q step) = next (SampleReach-trans p q) step

pub SampleReach-IsConsistent :
    {db db' : BenchmarkTables} → SampleReach db db' → IsConsistent db → IsConsistent db'
SampleReach-IsConsistent here c = c
SampleReach-IsConsistent (next p step) c =
    SampleStep-IsConsistent step (SampleReach-IsConsistent p c)

-- the rounds in which others only make calls of the repository
abbrev pub CallsOnly : List Round → Type 0
CallsOnly [] = Unit {0}
CallsOnly (r ∷ rounds) = ((d : BenchmarkTables) → SampleReach d (r.others d)) × CallsOnly rounds

module _ (sample_id : ℕ) (worker_id : String) (lease_seconds : ℕ) where
  after_renewal-SampleReach :
      (start : BenchmarkTables) (r : Round) (expires count : ℕ)
      (retry : BenchmarkTables → Confirmed) (answer : Result (Option ℕ) × BenchmarkTables)
      → ((d : BenchmarkTables) → SampleReach d (retry d).1)
      → SampleReach start answer.1
      → SampleReach start
          (after_renewal sample_id worker_id lease_seconds r expires count retry answer).1
  unfolding after_renewal
  after_renewal-SampleReach start r expires count retry (raise e, db) f p =
      if-elim (λ (c : Confirmed). SampleReach start c.1) (leb expires r.failed_at) _ _ p
        (if-elim (λ (c : Confirmed). SampleReach start c.1) r.stopped _ _ p
          (SampleReach-trans p (f db)))
  after_renewal-SampleReach start r expires count retry (ok none, db) f p = p
  after_renewal-SampleReach start r expires count retry (ok (some renewed), db) f p =
      if-elim (λ (c : Confirmed). SampleReach start c.1) (leb renewed r.finished_at) _ _ p p

  pub renew_before_expiry-SampleReach :
      (rounds : List Round) (expires count : ℕ) (db : BenchmarkTables)
      → CallsOnly rounds
      → SampleReach db
          (renew_before_expiry sample_id worker_id lease_seconds rounds expires count db).1
  unfolding renew_before_expiry
  renew_before_expiry-SampleReach [] expires count db h = here
  renew_before_expiry-SampleReach (r ∷ rounds) expires count db h =
      if-elim (λ (c : Confirmed). SampleReach db c.1) (leb expires r.checked_at) _ _ here
        (after_renewal-SampleReach db r expires count
          (renew_before_expiry sample_id worker_id lease_seconds rounds expires count) _
          (λ d. renew_before_expiry-SampleReach rounds expires count d h.1)
          (next (h.0 db) (renews r.link sample_id worker_id r.started_at lease_seconds)))
