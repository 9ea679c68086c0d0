-- ===== src/Benchmarks/Invariant/Calls/Recovering.antt =====
-- record_failure and recover_stale, composed.
use codejudge_ai.Base.{
  ℕ, ◌+◌, ◌≡◌, refl, arith, Bool, true, false, not, ◌&&◌, String, none, some, List, [], ◌∷◌, All,
  All-take, All-filter_of, if◌then◌else◌,
}
use codejudge_ai.Base.Errors.{Result, ok, raise, ◌>>=◌}
use codejudge_ai.Benchmarks.Failures.{
  released, expired, retry_or_end, fail_sample, record_failure, recover_sample, recover_samples,
  recover_stale, stale_samples,
}
use codejudge_ai.Benchmarks.Invariant.Calls.Failing.{retry_or_end-Keeps}
use codejudge_ai.Benchmarks.Invariant.Calls.Storing.{owns_lease-active}
use codejudge_ai.Benchmarks.Invariant.Rules.{Keeps, persistent-Keeps, if-Keeps, IsHeld, found-Keeps}
use codejudge_ai.Benchmarks.Invariant.{IsSound, IsConsistent}
use codejudge_ai.Benchmarks.Model.{
  BenchmarkSample, BenchmarkSampleStatus, BenchmarkTables, sample_key, is_active, is_terminal,
}
use codejudge_ai.Benchmarks.Samples.{owns_lease}
use codejudge_ai.Jobs.Transaction.{Link}

map-Keeps {ℓ κ} :
    {A : Type ℓ} {B : Type κ} (r : Result (A × BenchmarkTables)) (f : A → B)
    → Keeps r
    → Keeps (r >>= λ x. ok (f x.0, x.1))
map-Keeps (ok (a, db)) f k = k
map-Keeps (raise e) f k = tt

end_status-terminal :
    (generation : Bool)
    → is_terminal (
        if generation
        then BenchmarkSampleStatus.generation_failed
        else BenchmarkSampleStatus.evaluation_failed)
      ≡ true
end_status-terminal true = refl
end_status-terminal false = refl

fail_sample-Keeps :
    (worker_id code : String) (generation retryable : Bool) (now base event_id : ℕ)
    (db : BenchmarkTables) (sample : BenchmarkSample)
    → IsConsistent db
    → IsHeld db sample
    → Keeps (fail_sample sample worker_id code generation retryable now base event_id db)
unfolding fail_sample
fail_sample-Keeps worker_id code generation retryable now base event_id db sample c h =
    if-Keeps (not (owns_lease sample worker_id now)) _ _ (λ e. c)
      (λ e.
        map-Keeps
          (retry_or_end retryable
            (if generation
              then BenchmarkSampleStatus.generation_failed
              else BenchmarkSampleStatus.evaluation_failed)
            (released sample code now) now base event_id db)
          some
          (retry_or_end-Keeps sample code now event_id db c h.sound
            (owns_lease-active sample worker_id now (ground arith)) retryable
            (if generation
              then BenchmarkSampleStatus.generation_failed
              else BenchmarkSampleStatus.evaluation_failed)
            base (end_status-terminal generation)))

pub record_failure-IsConsistent :
    (link : Link) (sample_id : ℕ) (worker_id code : String) (generation retryable : Bool)
    (now base event_id : ℕ) (db : BenchmarkTables)
    → IsConsistent db
    → IsConsistent
        (record_failure link sample_id worker_id code generation retryable now base event_id db).1
unfolding record_failure
record_failure-IsConsistent link sample_id worker_id code generation retryable now base event_id db
      c =
    persistent-Keeps link _ db c (
      found-Keeps sample_id none db
        (λ sample. fail_sample sample worker_id code generation retryable now base event_id db) c
        (λ sample e h.
          fail_sample-Keeps worker_id code generation retryable now base event_id db sample c h))

-- a sample that the SELECT of recover_stale returns
abbrev IsStalled : BenchmarkSample → Type 0
IsStalled sample = IsSound sample × (is_active sample.status ≡ true)

stale_samples-IsStalled :
    (locked : ℕ → Bool) (now limit : ℕ) (db : BenchmarkTables)
    → All IsSound db.samples
    → All IsStalled (stale_samples locked now limit db)
unfolding stale_samples
stale_samples-IsStalled locked now limit db s = All-take IsStalled limit _ (
    All-filter_of IsSound IsStalled
      (λ x. is_active x.status && expired x.lease_expires_at now && not (locked (sample_key x)))
      (λ x e h. (h, ground arith)) db.samples s)

then-Keeps {ℓ κ} :
    {A : Type ℓ} {B : Type κ} (r : Result (A × BenchmarkTables))
    (f : BenchmarkTables → Result (B × BenchmarkTables))
    → Keeps r
    → ((db : BenchmarkTables) → IsConsistent db → Keeps (f db))
    → Keeps ((r >>= λ x. ok x.1) >>= f)
then-Keeps (ok (a, db)) f k g = g db k
then-Keeps (raise e) f k g = tt

recover_samples-Keeps :
    (uuid : ℕ → ℕ) (now base recovered : ℕ) (samples : List BenchmarkSample) (db : BenchmarkTables)
    → IsConsistent db
    → All IsStalled samples
    → Keeps (recover_samples uuid now base recovered samples db)
unfolding recover_samples recover_sample
recover_samples-Keeps uuid now base recovered [] db c a = c
recover_samples-Keeps uuid now base recovered (sample ∷ samples) db c a =
    then-Keeps _ (recover_samples uuid now base (recovered + 1) samples)
      (retry_or_end-Keeps sample "worker_lease_expired" now (uuid recovered) db c a.0.0 a.0.1 true
        BenchmarkSampleStatus.skipped base refl)
      (λ db' c'. recover_samples-Keeps uuid now base (recovered + 1) samples db' c' a.1)

pub recover_stale-IsConsistent :
    (link : Link) (uuid : ℕ → ℕ) (locked : ℕ → Bool) (now base limit : ℕ) (db : BenchmarkTables)
    → IsConsistent db
    → IsConsistent (recover_stale link uuid locked now base limit db).1
unfolding recover_stale
recover_stale-IsConsistent link uuid locked now base limit db c = persistent-Keeps link _ db c (
    recover_samples-Keeps uuid now base 0 (stale_samples locked now limit db) db c
      (stale_samples-IsStalled locked now limit db c.sound))
