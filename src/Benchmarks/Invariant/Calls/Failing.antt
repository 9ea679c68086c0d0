-- ===== src/Benchmarks/Invariant/Calls/Failing.antt =====
-- record_failure and recover_stale keep the samples consistent.
use codejudge_ai.Base.{
  ℕ, ◌+◌, ◌<◌, ◌≡◌, refl, arith, Bool, true, false, ◌&&◌, String, none, Bool-cases, inl, inr, [],
  ◌∷◌, ◌++◌, All-map, Any-append_left, Any-append_right, is_some, ltb, if◌then◌else◌,
}
use codejudge_ai.Base.Errors.{Result, ok, raise, ◌>>=◌, integrity_error}
use codejudge_ai.Base.Table.{find, insert_row}
use codejudge_ai.Benchmarks.Failures.{released, requeued, given_up, retry_or_end}
use codejudge_ai.Benchmarks.Invariant.Rules.{
  Keeps, if-Keeps, with_sample, with_sample-IsConsistent, update_sample-ok,
  finish_run_if_terminal-IsConsistent,
}
use codejudge_ai.Benchmarks.Invariant.{IsSound, IsStaged, IsCovered, IsConsistent}
use codejudge_ai.Benchmarks.Model.{
  BenchmarkSample, BenchmarkSampleStatus, BenchmarkTables, sample_key, artifact_key, is_active,
  is_terminal, add_event, update_sample,
}
use codejudge_ai.Jobs.Model.{OutboxEvent, event_key}
use codejudge_ai.Jobs.Retry.{retry_delay_seconds}

-- the row of a sample that goes back to the queue
abbrev retried : BenchmarkSample → String → ℕ → Bool → BenchmarkSample
retried sample code now has_artifact = requeued (released sample code now) has_artifact

retried-IsSound :
    (sample : BenchmarkSample) (code : String) (now : ℕ) (has_artifact : Bool)
    → IsSound sample
    → is_active sample.status ≡ true
    → sample.attempt_count < sample.plan.max_attempts
    → IsSound (retried sample code now has_artifact)
retried-IsSound sample code now true s a h = ground arith
retried-IsSound sample code now false s a h = ground arith

retried-IsStaged :
    (db : BenchmarkTables) (sample : BenchmarkSample) (code : String) (now : ℕ)
    (has_artifact : Bool)
    → is_some (find artifact_key (sample_key sample) db.artifacts) ≡ has_artifact
    → IsStaged db.artifacts (retried sample code now has_artifact)
retried-IsStaged db sample code now true e = (λ h. absurd (ground arith), λ h. e)
retried-IsStaged db sample code now false e = (λ h. e, λ h. absurd (ground arith))

-- The row of a sample that has ended.
abbrev stopped : BenchmarkSample → String → ℕ → BenchmarkSampleStatus → BenchmarkSample
stopped sample code now status = given_up (released sample code now) status now

stopped-IsSound :
    (sample : BenchmarkSample) (code : String) (now : ℕ) (status : BenchmarkSampleStatus)
    → IsSound sample
    → is_terminal status ≡ true
    → IsSound (stopped sample code now status)
stopped-IsSound sample code now status s t = ground arith

abbrev event : ℕ → ℕ → ℕ → ℕ → OutboxEvent
event event_id sample_id created_at next_attempt_at = record {
  event_id = event_id;
  event_type = "benchmark.sample.requested";
  aggregate_id = sample_id;
  created_at = created_at;
  published_at = none;
  attempt_count = 0;
  next_attempt_at = next_attempt_at;
  last_error_code = none;
}

abbrev with_event : BenchmarkTables → OutboxEvent → BenchmarkTables
with_event db e = record db { outbox = db.outbox ++ e ∷ [] }

with_event-IsConsistent :
    (db : BenchmarkTables) (e : OutboxEvent) → IsConsistent db → IsConsistent (with_event db e)
with_event-IsConsistent db e c = record {
  distinct = c.distinct;
  sound = c.sound;
  staged = c.staged;
  covered =
      All-map (IsCovered db.outbox) (IsCovered (db.outbox ++ e ∷ []))
        (λ sample covered pending.
          Any-append_left (λ x. x.aggregate_id ≡ sample_key sample) db.outbox (e ∷ [])
            (covered pending))
        db.samples c.covered;
}

add_event-eq :
    (event_id sample_id created_at next_attempt_at : ℕ) (db : BenchmarkTables)
    → add_event event_id sample_id created_at next_attempt_at db ≡ (
        if is_some (find event_key event_id db.outbox)
        then raise integrity_error
        else ok (with_event db (event event_id sample_id created_at next_attempt_at)))
unfolding add_event insert_row
add_event-eq event_id sample_id created_at next_attempt_at db = ground arith

module _ (sample : BenchmarkSample) (code : String) (now event_id : ℕ) (db : BenchmarkTables)
    (c : IsConsistent db) (s : IsSound sample) (a : is_active sample.status ≡ true) where
  -- the tables of a retry
  requeued-IsConsistent :
      (next : ℕ)
      → sample.attempt_count < sample.plan.max_attempts
      → IsConsistent (
          with_sample (with_event db (event event_id (sample_key sample) now next)) (
            retried sample code now (is_some (find artifact_key (sample_key sample) db.artifacts))))
  requeued-IsConsistent next h =
      let has = is_some (find artifact_key (sample_key sample) db.artifacts) in
      let e = event event_id (sample_key sample) now next in
      with_sample-IsConsistent (with_event db e) (retried sample code now has)
        (with_event-IsConsistent db e c) (retried-IsSound sample code now has s a h)
        (retried-IsStaged db sample code now has refl)
        (λ pending.
          Any-append_right (λ x. x.aggregate_id ≡ sample_key sample) db.outbox (e ∷ []) (inl refl))

  retry-Keeps :
      (delay : Result ℕ)
      → sample.attempt_count < sample.plan.max_attempts
      → Keeps (
          delay >>= λ d. add_event event_id (sample_key sample) now (now + d) db >>= λ announced.
          let row =
            retried sample code now
              (is_some (find artifact_key (sample_key sample) db.artifacts)) in
          update_sample row announced >>= λ updated. ok (row.status, updated))
  retry-Keeps (raise e) h = tt
  retry-Keeps (ok d) h = elim (Bool-cases (is_some (find event_key event_id db.outbox))) [
    | inl taken ↦ rw (add_event-eq event_id (sample_key sample) now (now + d) db, taken) tt
    | inr free ↦
        let has = is_some (find artifact_key (sample_key sample) db.artifacts) in
        rw
          (
            add_event-eq event_id (sample_key sample) now (now + d) db,
            free,
            update_sample-ok (retried sample code now has)
                (with_event db (event event_id (sample_key sample) now (now + d))) s.attempts,
          )
          (requeued-IsConsistent (now + d) h)
  ]

  pub retry_or_end-Keeps :
      (retryable : Bool) (end_status : BenchmarkSampleStatus) (base : ℕ)
      → is_terminal end_status ≡ true
      → Keeps (retry_or_end retryable end_status (released sample code now) now base event_id db)
  unfolding retry_or_end
  retry_or_end-Keeps retryable end_status base t =
      if-Keeps (retryable && ltb sample.attempt_count sample.plan.max_attempts) _ _
        (λ e. retry-Keeps (retry_delay_seconds sample.attempt_count base) (ground arith))
        (λ e.
          let row = stopped sample code now end_status in
          rw (update_sample-ok row db s.attempts) (
            finish_run_if_terminal-IsConsistent sample.plan.benchmark_run_id now
              (with_sample db row)
              (with_sample-IsConsistent db row c (stopped-IsSound sample code now end_status s t)
                (λ q. absurd (ground arith), λ q. absurd (ground arith))
                (λ q. absurd (ground arith)))))
