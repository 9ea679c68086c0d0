-- ===== src/Benchmarks/Answers/Failures.antt =====
-- A sample whose failure was recorded is released.
use codejudge_ai.Benchmarks.Answers.{persistent-ok, found-updated, IsReleased, finish_run-samples}
use codejudge_ai.Base.{
  ℕ, ◌+◌, ◌≡◌, refl, ap, ◌∙◌, arith, Bool, true, false, not, ◌&&◌, inl, inr, String, Option, none,
  some, Option-cases, is_some, ltb, if◌then◌else◌, if-cases,
}
use codejudge_ai.Base.Errors.{Result, ok, ◌>>=◌, >>=-eq-ok}
use codejudge_ai.Base.Table.{find}
use codejudge_ai.Benchmarks.Failures.{
  record_failure, fail_sample, retry_or_end, requeued, given_up, released,
}
use codejudge_ai.Benchmarks.Model.{
  BenchmarkSample, BenchmarkSampleStatus, BenchmarkTables, sample_key, is_active, update_sample,
  add_event, artifact_key,
}
use codejudge_ai.Benchmarks.Runs.{finish_run_if_terminal}
use codejudge_ai.Benchmarks.Samples.{owns_lease}
use codejudge_ai.Jobs.Retry.{retry_delay_seconds}
use codejudge_ai.Jobs.Transaction.{Link}

add_event-samples :
    (event_id sample_id created_at next_attempt_at : ℕ) (db db' : BenchmarkTables)
    → add_event event_id sample_id created_at next_attempt_at db ≡ ok db'
    → db'.samples ≡ db.samples
unfolding add_event
add_event-samples event_id sample_id created_at next_attempt_at db db' h = ground arith

requeued-idle :
    (sample : BenchmarkSample) (has_artifact : Bool)
    → is_active (requeued sample has_artifact).status ≡ false
requeued-idle sample true = refl
requeued-idle sample false = refl

retry_or_end-IsReleased :
    (sample_id : ℕ) (retryable : Bool) (end_status status : BenchmarkSampleStatus)
    (held sample : BenchmarkSample) (now base event_id : ℕ) (db db' : BenchmarkTables)
    → is_active end_status ≡ false
    → find sample_key sample_id db.samples ≡ some held
    → sample_key sample ≡ sample_key held
    → retry_or_end retryable end_status sample now base event_id db ≡ ok (status, db')
    → IsReleased db' sample_id
unfolding retry_or_end
retry_or_end-IsReleased sample_id retryable end_status status held sample now base event_id db db' i
      e same h =
    let row = requeued sample (is_some (find artifact_key (sample_key sample) db.artifacts)) in
    let answer : BenchmarkTables → Result (BenchmarkSampleStatus × BenchmarkTables) =
      λ updated. ok (row.status, updated) in
    let update : BenchmarkTables → Result (BenchmarkSampleStatus × BenchmarkTables) =
      λ announced. update_sample row announced >>= answer in
    let announce : ℕ → Result (BenchmarkSampleStatus × BenchmarkTables) =
      λ delay. add_event event_id (sample_key sample) now (now + delay) db >>= update in
    let last = given_up sample end_status now in
    let end_ : BenchmarkTables → Result (BenchmarkSampleStatus × BenchmarkTables) = λ updated.
      ok (end_status, (finish_run_if_terminal sample.plan.benchmark_run_id now updated).1) in
    if-cases (retryable && ltb sample.attempt_count sample.plan.max_attempts)
      (retry_delay_seconds sample.attempt_count base >>= announce) (update_sample last db >>= end_)
      (ok (status, db')) h
      (λ _ made.
        let delayed = >>=-eq-ok (retry_delay_seconds sample.attempt_count base) announce made in
        let event = add_event event_id (sample_key sample) now (now + delayed.0) db in
        let announced = >>=-eq-ok event update delayed.2 in
        let updated = >>=-eq-ok (update_sample row announced.0) answer announced.2 in
        let same_db : updated.0 ≡ db' = ground (arith, updated.2) in
        let kept : announced.0.samples ≡ db.samples =
          add_event-samples event_id (sample_key sample) now (now + delayed.0) db announced.0
            announced.1 in
        let found =
          found-updated sample_id held row announced.0 updated.0
            (ap (λ rows. find sample_key sample_id rows) kept ∙ e) same updated.1 in
        (row, rw (← same_db) found, requeued-idle sample _))
      (λ _ made.
        let updated = >>=-eq-ok (update_sample last db) end_ made in
        let same_db : (finish_run_if_terminal sample.plan.benchmark_run_id now updated.0).1 ≡ db' =
          ground (arith, updated.2) in
        let found = found-updated sample_id held last db updated.0 e same updated.1 in
        (
          last,
          rw (← same_db) (
              ap (λ rows. find sample_key sample_id rows)
                (finish_run-samples sample.plan.benchmark_run_id now updated.0)
              ∙ found),
          i,
        ))

end_status-idle :
    (generation : Bool)
    → is_active (
        if generation
        then BenchmarkSampleStatus.generation_failed
        else BenchmarkSampleStatus.evaluation_failed)
      ≡ false
end_status-idle true = refl
end_status-idle false = refl

fail_sample-IsReleased :
    (sample_id : ℕ) (sample : BenchmarkSample) (worker_id code : String)
    (generation retryable : Bool) (now base event_id : ℕ) (status : BenchmarkSampleStatus)
    (db db' : BenchmarkTables)
    → find sample_key sample_id db.samples ≡ some sample
    → fail_sample sample worker_id code generation retryable now base event_id db
      ≡ ok (some status, db')
    → IsReleased db' sample_id
unfolding fail_sample
fail_sample-IsReleased sample_id sample worker_id code generation retryable now base event_id status
      db db' e h =
    let end_status =
      if generation
      then BenchmarkSampleStatus.generation_failed
      else BenchmarkSampleStatus.evaluation_failed in
    let row = released sample code now in
    let tried = retry_or_end retryable end_status row now base event_id db in
    let answer : BenchmarkSampleStatus × BenchmarkTables
        → Result (Option BenchmarkSampleStatus × BenchmarkTables) =
      λ r. ok (some r.0, r.1) in
    if-cases (not (owns_lease sample worker_id now)) (ok (none, db)) (tried >>= answer)
      (ok (some status, db')) h (λ _ bad. absurd (cc))
      (λ _ made.
        let found = >>=-eq-ok tried answer made in
        let same_db : found.0.1 ≡ db' = ground (arith, found.2) in
        rw (← same_db) (
          retry_or_end-IsReleased sample_id retryable end_status found.0.0 sample row now base
            event_id db found.0.1 (end_status-idle generation) e refl found.1))

pub record_failure-IsReleased :
    (link : Link) (sample_id : ℕ) (worker_id code : String) (generation retryable : Bool)
    (now base event_id : ℕ) (status : BenchmarkSampleStatus) (db db' : BenchmarkTables)
    → record_failure link sample_id worker_id code generation retryable now base event_id db
      ≡ (ok (some status), db')
    → IsReleased db' sample_id
unfolding record_failure
record_failure-IsReleased link sample_id worker_id code generation retryable now base event_id
      status db db' h =
    let made = persistent-ok link _ db (some status) db' h in
    elim (Option-cases (find sample_key sample_id db.samples)) [
      | inl e ↦ absurd (ground (arith, e, made))
      | inr (sample, e) ↦
          fail_sample-IsReleased sample_id sample worker_id code generation retryable now base
            event_id status db db' e (ground (arith, e, made))
    ]
