-- ===== src/Benchmarks/Fence.antt =====
-- A worker without a live lease on a sample.
use codejudge_ai.Base.{
  ℕ, ◌≤◌, ◌≡◌, ◌≢◌, refl, Option, ◌⊎◌, inl, inr, or_else, str_eq_iff, arith, Bool, false, ◌&&◌,
  ◌==◌, String, none, some,
}
use codejudge_ai.Base.Errors.{ok}
use codejudge_ai.Base.Table.{find}
use codejudge_ai.Benchmarks.Failures.{fail_sample, record_failure}
use codejudge_ai.Benchmarks.Model.{
  BenchmarkSample, BenchmarkTables, Evaluation, GeneratedSolutionArtifact, sample_key, is_completed,
  is_active, persistent, settled,
}
use codejudge_ai.Benchmarks.Samples.{
  owns_lease, is_worker, renew_sample, renew_lease, store_for, store_artifact, complete_sample,
  complete,
}
use codejudge_ai.Jobs.Transaction.{up}

-- The worker is not the sample's, or its lease has expired, or nobody works on the sample.
abbrev pub HasNoLease : BenchmarkSample → String → ℕ → Type 0
HasNoLease sample worker_id now =
    (sample.worker_id ≢ some worker_id)
    ⊎ (or_else sample.lease_expires_at 0 ≤ now)
    ⊎ (is_active sample.status ≡ false)

other_worker :
    (holder : Option String) (worker_id : String)
    → holder ≢ some worker_id
    → is_worker holder worker_id ≡ false
other_worker none worker_id n = refl
other_worker (some holder) worker_id n = ground (arith, str_eq_iff holder worker_id)

HasNoLease-owns_lease :
    (sample : BenchmarkSample) (worker_id : String) (now : ℕ)
    → HasNoLease sample worker_id now
    → owns_lease sample worker_id now ≡ false
unfolding owns_lease
HasNoLease-owns_lease sample worker_id now (inl n) =
    ground (arith, other_worker sample.worker_id worker_id n)
HasNoLease-owns_lease sample worker_id now (inr (inl late)) = ground arith
HasNoLease-owns_lease sample worker_id now (inr (inr idle)) = ground arith

module _ (sample_id : ℕ) (sample : BenchmarkSample) (worker_id : String) (now : ℕ)
    (db : BenchmarkTables) (e : find sample_key sample_id db.samples ≡ some sample)
    (without : HasNoLease sample worker_id now) where
  -- With the database up, a worker without a live lease on a sample can neither renew the lease,
  -- store an artifact, record a failure, nor complete the sample unless it is completed already:
  -- the calls say so and change nothing.
  pub lost_lease-fenced :
      (lease total base event_id : ℕ) (artifact : GeneratedSolutionArtifact) (snapshot : Evaluation)
      (code : String) (generation retryable : Bool)
      → (renew_lease up sample_id worker_id now lease db ≡ (ok none, db))
        × (store_artifact up sample_id worker_id artifact now db ≡ (ok false, db))
        × (record_failure up sample_id worker_id code generation retryable now base event_id db
            ≡ (ok none, db))
        × (complete up sample_id worker_id snapshot now total db ≡ (
          ok (snapshot.evaluation_id == sample.plan.evaluation_id && is_completed sample.status),
          db,
        ))
  unfolding renew_lease renew_sample store_artifact store_for record_failure fail_sample complete
      complete_sample persistent settled owns_lease
  lost_lease-fenced lease total base event_id artifact snapshot code generation retryable =
      let lost = HasNoLease-owns_lease sample worker_id now without in
      (ground (arith, e), ground (arith, e), ground (arith, e), ground (arith, e))
