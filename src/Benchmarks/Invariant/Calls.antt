-- ===== src/Benchmarks/Invariant/Calls.antt =====
-- claim and renew_lease keep the samples consistent.
pub mod Storing
pub mod Publishing
pub mod Failing
pub mod Recovering
use codejudge_ai.Base.{
  ℕ, ◌≤◌, ◌≡◌, ◌≢◌, refl, arith, Bool, true, false, not, ◌&&◌, ◌||◌, String, Option, none, some,
  Option-cases, ◌⊎◌, inl, inr, List, [], ◌∷◌, ◌++◌, All, is_some, ◌+◌, ltb, ◌==◌, ==_refl, str_eq,
  if◌then◌else◌,
}
use codejudge_ai.Base.Errors.{Result, ok, raise, ◌>>=◌}
use codejudge_ai.Base.Table.{find, put, find-append, All-put, All-put_other, Distinct-put}
use codejudge_ai.Benchmarks.Invariant.Rules.{
  Keeps, persistent-Keeps, if-Keeps, IsHeld, found-Keeps, with_sample, with_sample-IsConsistent,
  update_sample-ok, start_run-IsConsistent, finish_run_if_terminal-IsConsistent,
}
use codejudge_ai.Benchmarks.Invariant.{
  IsSound, IsStaged, IsCovered, IsConsistent, before_artifact, after_artifact,
}
use codejudge_ai.Benchmarks.Model.{
  BenchmarkSample, BenchmarkSampleStatus, BenchmarkTables, Evaluation, GeneratedSolutionArtifact,
  sample_key, artifact_key, evaluation_key, is_pending, is_active, is_generating, is_completed,
  persistent,
}
use codejudge_ai.Benchmarks.Samples.{
  owns_lease, is_worker, is_leased, claimed, claim_sample, claim, renew_sample, renew_lease,
  store_for, store_artifact, finished, store_evaluation, complete_sample, complete,
}
use codejudge_ai.Jobs.Transaction.{Link}

claimed-IsSound :
    (sample : BenchmarkSample) (has_artifact : Bool) (worker_id : String) (now lease : ℕ)
    → IsSound sample
    → is_pending sample.status ≡ true
    → IsSound (claimed sample has_artifact worker_id now lease)
claimed-IsSound sample true worker_id now lease s p = ground arith
claimed-IsSound sample false worker_id now lease s p = ground arith

claimed-IsStaged :
    (sample : BenchmarkSample) (has_artifact : Bool) (worker_id : String) (now lease : ℕ)
    (artifacts : List GeneratedSolutionArtifact)
    → is_some (find artifact_key (sample_key sample) artifacts) ≡ has_artifact
    → IsStaged artifacts (claimed sample has_artifact worker_id now lease)
claimed-IsStaged sample true worker_id now lease artifacts e = (λ h. absurd (ground arith), λ h. e)
claimed-IsStaged sample false worker_id now lease artifacts e = (λ h. e, λ h. absurd (ground arith))

claimed_not-pending :
    (has_artifact : Bool)
    → is_pending (
        if has_artifact then BenchmarkSampleStatus.evaluating else BenchmarkSampleStatus.generating)
      ≡ false
claimed_not-pending true = refl
claimed_not-pending false = refl

claim_sample-Keeps :
    (worker_id : String) (now lease : ℕ) (db : BenchmarkTables) (sample : BenchmarkSample)
    → IsConsistent db
    → IsHeld db sample
    → Keeps (claim_sample sample worker_id now lease db)
unfolding claim_sample
claim_sample-Keeps worker_id now lease db sample c h =
    let has = is_some (find artifact_key (sample_key sample) db.artifacts) in
    let row = claimed sample has worker_id now lease in
    if-Keeps (not (is_pending sample.status)) _ _ (λ e. c)
      (λ e.
        let sound = claimed-IsSound sample has worker_id now lease h.sound (ground arith) in
        rw (update_sample-ok row db sound.attempts) (
          start_run-IsConsistent sample.plan.benchmark_run_id now (with_sample db row) (
            with_sample-IsConsistent db row c sound
              (claimed-IsStaged sample has worker_id now lease db.artifacts refl)
              (λ p. absurd (ground (arith, claimed_not-pending has))))))

pub claim-IsConsistent :
    (link : Link) (sample_id : ℕ) (worker_id : String) (now lease : ℕ) (db : BenchmarkTables)
    → IsConsistent db
    → IsConsistent (claim link sample_id worker_id now lease db).1
unfolding claim
claim-IsConsistent link sample_id worker_id now lease db c = persistent-Keeps link _ db c (
    found-Keeps sample_id none db (λ sample. claim_sample sample worker_id now lease db) c
      (λ sample e h. claim_sample-Keeps worker_id now lease db sample c h))

abbrev renewed : BenchmarkSample → ℕ → ℕ → BenchmarkSample
renewed sample now lease = record sample { lease_expires_at = some (now + lease); updated_at = now }

renewed-IsSound :
    (sample : BenchmarkSample) (now lease : ℕ)
    → IsSound sample
    → is_active sample.status ≡ true
    → IsSound (renewed sample now lease)
renewed-IsSound sample now lease s a = ground arith

renew_sample-Keeps :
    (worker_id : String) (now lease : ℕ) (db : BenchmarkTables) (sample : BenchmarkSample)
    → IsConsistent db
    → IsHeld db sample
    → Keeps (renew_sample sample worker_id now lease db)
unfolding renew_sample
renew_sample-Keeps worker_id now lease db sample c h =
    if-Keeps
      (not (is_worker sample.worker_id worker_id) || not (is_leased sample.lease_expires_at now)) _
      _ (λ e. c)
      (λ e.
        if-Keeps (not (is_active sample.status)) _ _ (λ f. c)
          (λ f. rw (update_sample-ok (renewed sample now lease) db h.sound.attempts) (
            with_sample-IsConsistent db (renewed sample now lease) c
              (renewed-IsSound sample now lease h.sound (ground arith)) h.staged h.covered)))

pub renew_lease-IsConsistent :
    (link : Link) (sample_id : ℕ) (worker_id : String) (now lease : ℕ) (db : BenchmarkTables)
    → IsConsistent db
    → IsConsistent (renew_lease link sample_id worker_id now lease db).1
unfolding renew_lease
renew_lease-IsConsistent link sample_id worker_id now lease db c = persistent-Keeps link _ db c (
    found-Keeps sample_id none db (λ sample. renew_sample sample worker_id now lease db) c
      (λ sample e h. renew_sample-Keeps worker_id now lease db sample c h))
