-- ===== src/Benchmarks/Worker/Tests.antt =====
-- A worker with one message, and the theorems about it.
use codejudge_ai.Base.{ℕ, ◌+◌, ◌≡◌, refl, arith, true, false, none, some, List, [], ◌∷◌, inl}
use codejudge_ai.Base.Errors.{ok, raise, persistence_error}
use codejudge_ai.Base.Table.{find, put}
use codejudge_ai.Ai.Models.{Task}
use codejudge_ai.Benchmarks.Answers.{IsReleased}
use codejudge_ai.Benchmarks.Generation.{LlmProvider, BenchmarkModelConfig, GenerationOutputMode}
use codejudge_ai.Benchmarks.Invariant.{IsConsistent}
use codejudge_ai.Benchmarks.Model.{
  BenchmarkRunStatus, BenchmarkSample, BenchmarkSampleStatus, BenchmarkTables, Evaluation, Plan,
  persistent, settled, update_sample,
}
use codejudge_ai.Benchmarks.Samples.{
  renew_lease, complete, complete_sample, renew_sample, owns_lease, store_artifact, store_for,
  store_evaluation,
}
use codejudge_ai.Benchmarks.Worker.Histories.{IsFair, process_sample-IsConsistent}
use codejudge_ai.Benchmarks.Worker.Renewals.{SampleReach, here}
use codejudge_ai.Benchmarks.Worker.Lease.{
  Confirmed, LeaseHeartbeatState, Round, renew_before_expiry,
}
use codejudge_ai.Benchmarks.Worker.Message.{process_message}
use codejudge_ai.Benchmarks.Worker.Process.{Handled, run_with_lease}
use codejudge_ai.Benchmarks.Worker.Surroundings.{BenchmarkWorker, Surroundings}
use codejudge_ai.Benchmarks.Worker.Recorded.{run_with_lease-Releases}
use codejudge_ai.Benchmarks.Worker.Renewal.{IsConfirmed, renew_before_expiry-IsConfirmed}
use codejudge_ai.Jobs.Transaction.{down, up}

abbrev round : (checked_at : ℕ) → Round
round checked_at = record {
  link = up;
  others = λ d. d;
  checked_at = checked_at;
  started_at = checked_at;
  failed_at = checked_at;
  finished_at = checked_at + 1;
  stopped = false;
}

-- the database does not answer the first try
abbrev rounds : List Round
rounds = record (round 202) { link = down } ∷ round 205 ∷ []

abbrev plan : Plan
plan = record {
  benchmark_sample_id = 1;
  benchmark_run_id = 5;
  model_config_id = 2;
  evaluation_id = 3;
  task_id = "lru-cache";
  task_version = "1.0";
  task_fingerprint = "f";
  tests_fingerprint = "t";
  task_weight = 1;
  sample_index = 1;
  max_attempts = 2;
  created_at = 100;
}

abbrev claimed : BenchmarkSample
claimed = record {
  plan = plan;
  status = BenchmarkSampleStatus.generating;
  attempt_count = 1;
  worker_id = some "w1";
  lease_expires_at = some 230;
  failure_code = none;
  evaluation_duration_seconds = none;
  total_duration_seconds = none;
  updated_at = 200;
  completed_at = none;
}

abbrev planned : BenchmarkSample
planned = record claimed {
  status = BenchmarkSampleStatus.queued;
  attempt_count = 0;
  worker_id = none;
  lease_expires_at = none;
}

abbrev evaluation : Evaluation
evaluation = record { evaluation_id = 3; source_hash = "h"; duration_seconds = 1 }

abbrev tables_of : BenchmarkSample → BenchmarkTables
tables_of sample = record {
  samples = sample ∷ [];
  artifacts = [];
  evaluations = evaluation ∷ [];
  runs =
      record {
        benchmark_run_id = 5;
        created_at = 100;
        started_at = none;
        completed_at = none;
        status = BenchmarkRunStatus.running;
      }
      ∷ [];
  outbox = [];
}

abbrev task : Task
task = record {
  id = "lru-cache";
  title = "LRU cache";
  description = "Write a cache.";
  language = "python";
  entrypoint = some "solution.py";
  timeout_seconds = 5;
  version = "1.0";
}

abbrev provider : LlmProvider
provider = record {
  complete_structured = λ request. raise persistence_error;
  complete_raw_source = λ request. ok (record {
    content = "pass";
    response_id = none;
    input_tokens = none;
    output_tokens = none;
    latency_ms = 10;
  });
}

abbrev config : BenchmarkModelConfig
config = record {
  model_config_id = 2;
  provider_id = "p";
  model = "m";
  temperature = "0";
  top_p = "1";
  max_output_tokens = 100;
  seed = none;
  output_mode = GenerationOutputMode.raw_source;
  pricing = none;
}

abbrev worker : BenchmarkWorker
worker = record {
  worker_id = "w1";
  providers = λ provider_id. some provider;
  max_code_size = 1000;
  lease_seconds = 30;
  retry_base_delay_seconds = 5;
  tools = record { sha256 = λ s. "h"; strip = λ s. s; parse_coding = λ s. none };
}

abbrev around : Surroundings
around = record {
  lookup_link = up;
  claim_link = up;
  artifact_link = up;
  store_link = up;
  complete_link = up;
  failure_link = up;
  claim_time = 200;
  store_time = 210;
  complete_time = 215;
  failure_time = 215;
  created_at = 209;
  total_duration = 8;
  event_id = 9;
  first_renewal = rounds;
  run_answer =
      ok (some (record { dataset_id = "d"; dataset_version = "1"; evaluator_fingerprint = "e" }));
  config_answer = ok (some config);
  evaluator_fingerprint = λ run. ok "e";
  resolve = λ run task_id. ok (record {
    revision = 1;
    specification = task;
    tests_fingerprint = "t";
    task_fingerprint = "f";
  });
  snapshot_answer = ok none;
  evaluate_snapshot = λ request.
      ok (record { evaluation = evaluation; task_fingerprint = "f"; tests_fingerprint = "t" });
  class_name = λ e. "valueerror";
  heartbeat_first = false;
  queue_up = true;
  before_claim = λ d. d;
  before_artifact = λ d. d;
  before_store = λ d. d;
  before_complete = λ d. d;
  before_failure = λ d. d;
}

around-IsFair : IsFair around
around-IsFair = record {
  claim_fair = λ d. here;
  artifact_fair = λ d. here;
  store_fair = λ d. here;
  complete_fair = λ d. here;
  failure_fair = λ d. here;
  renewal_fair = (λ d. here, (λ d. here, tt));
}

abbrev start : BenchmarkTables
start = record (tables_of planned) {
  outbox =
      record {
        event_id = 7;
        event_type = "benchmark.sample.requested";
        aggregate_id = 1;
        created_at = 100;
        published_at = none;
        attempt_count = 0;
        next_attempt_at = 100;
        last_error_code = none;
      }
      ∷ [];
}

start-IsConsistent : IsConsistent start
unfolding find
start-IsConsistent = record {
  distinct = (tt, tt);
  sound = (
    record {
      attempts = omega arith;
      attempts_left = λ h. omega arith;
      attempted = λ h. absurd (ground arith);
      owned = refl;
      leased = refl;
      ended = refl;
    },
    tt,
  );
  staged = ((λ h. refl, λ h. absurd (ground arith)), tt);
  covered = ((λ h. inl refl), tt);
}

process_sample-IsConsistent_example :
    SampleReach start (process_message worker around 1 start).1
    × IsConsistent (process_message worker around 1 start).1
process_sample-IsConsistent_example =
    process_sample-IsConsistent worker around around-IsFair 1 start start-IsConsistent

-- the second try renews the lease
abbrev renewed : LeaseHeartbeatState
renewed = record { lease_expires_at = 235; renewal_count = 1 }

abbrev confirmed : Confirmed
confirmed = renew_before_expiry 1 "w1" 30 rounds 230 0 (tables_of claimed)

confirmed-eq : confirmed ≡ (some renewed, confirmed.1)
unfolding renew_before_expiry renew_lease persistent settled find renew_sample update_sample
confirmed-eq = refl

renew_before_expiry-IsConfirmed_example : IsConfirmed 1 "w1" 30 rounds 230 0 renewed confirmed.1
renew_before_expiry-IsConfirmed_example =
    renew_before_expiry-IsConfirmed 1 "w1" 30 rounds 230 0 (tables_of claimed) renewed confirmed.1
      confirmed-eq

-- the sample is generated, evaluated and completed
abbrev released : Handled
released = run_with_lease worker around claimed (tables_of claimed)

released-eq : released.0 ≡ ok true
unfolding run_with_lease renew_lease persistent settled find renew_sample update_sample put
    store_artifact store_for owns_lease complete complete_sample store_evaluation
released-eq = refl

run_with_lease-Releases_example : IsReleased released.1 1
run_with_lease-Releases_example =
    run_with_lease-Releases worker around claimed (tables_of claimed) released-eq
