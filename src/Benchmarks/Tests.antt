-- ===== src/Benchmarks/Tests.antt =====
-- One sample of one run, and the theorems about samples at it.
use codejudge_ai.Base.{
  ℕ, ◌<◌, ◌≡◌, ◌↔◌, ◌&&◌, ◌==◌, refl, arith, true, false, none, some, List, [], ◌∷◌, inl, inr,
}
use codejudge_ai.Base.Errors.{ok}
use codejudge_ai.Base.Table.{find}
use codejudge_ai.Benchmarks.Failures.{record_failure}
use codejudge_ai.Benchmarks.Fence.{lost_lease-fenced}
use codejudge_ai.Benchmarks.Invariant.Histories.{claims, SampleStep-IsConsistent}
use codejudge_ai.Benchmarks.Invariant.{IsConsistent}
use codejudge_ai.Benchmarks.Model.{
  BenchmarkRunStatus, BenchmarkSample, BenchmarkSampleStatus, BenchmarkTables, Evaluation,
  GeneratedSolutionArtifact, Plan,
}
use codejudge_ai.Base.Text.{member, same_text, codes}
use codejudge_ai.Benchmarks.Reliability.Diagnostics.{decode-encode, is_plain}
use codejudge_ai.Benchmarks.Reliability.{decode_failure_diagnostic, encode_failure_diagnostic}
use codejudge_ai.Benchmarks.Samples.{claim, renew_lease, store_artifact, complete, owns_lease}
use codejudge_ai.Benchmarks.Winners.{
  WinnerCandidate, evaluate_winner_eligibility, evaluate_winner_eligibility-eligible_iff,
  select_winners, select_winners-Wins, Wins, is_scored, may_win,
}
use codejudge_ai.Jobs.Transaction.{up}

abbrev plan : Plan
plan = record {
  benchmark_sample_id = 1;
  benchmark_run_id = 5;
  model_config_id = 2;
  evaluation_id = 3;
  task_id = "lru-cache";
  task_version = "1.0";
  task_fingerprint = "f";
  tests_fingerprint = "t";
  task_weight = 1;
  sample_index = 1;
  max_attempts = 2;
  created_at = 100;
}

abbrev planned : BenchmarkSample
planned = record {
  plan = plan;
  status = BenchmarkSampleStatus.queued;
  attempt_count = 0;
  worker_id = none;
  lease_expires_at = none;
  failure_code = none;
  evaluation_duration_seconds = none;
  total_duration_seconds = none;
  updated_at = 100;
  completed_at = none;
}

abbrev tables : BenchmarkTables
tables = record {
  samples = planned ∷ [];
  artifacts = [];
  evaluations = [];
  runs =
      record {
        benchmark_run_id = 5;
        created_at = 100;
        started_at = none;
        completed_at = none;
        status = BenchmarkRunStatus.queued;
      }
      ∷ [];
  outbox =
      record {
        event_id = 7;
        event_type = "benchmark.sample.requested";
        aggregate_id = 1;
        created_at = 100;
        published_at = none;
        attempt_count = 0;
        next_attempt_at = 100;
        last_error_code = none;
      }
      ∷ [];
}

tables-IsConsistent : IsConsistent tables
unfolding find
tables-IsConsistent = record {
  distinct = (tt, tt);
  sound = (
    record {
      attempts = omega arith;
      attempts_left = λ h. omega arith;
      attempted = λ h. absurd (ground arith);
      owned = refl;
      leased = refl;
      ended = refl;
    },
    tt,
  );
  staged = ((λ h. refl, λ h. absurd (ground arith)), tt);
  covered = ((λ h. inl refl), tt);
}

SampleStep-IsConsistent_example : IsConsistent (claim up 1 "w1" 200 30 tables).1
SampleStep-IsConsistent_example =
    SampleStep-IsConsistent (claims up 1 "w1" 200 30) tables-IsConsistent

abbrev artifact : GeneratedSolutionArtifact
artifact = record {
  benchmark_sample_id = 1;
  source = "pass";
  source_hash = "h";
  source_size = 4;
  generation_attempts = 1;
  provider_response_id = none;
  input_tokens = none;
  output_tokens = none;
  generation_latency_ms = 10;
  pricing_version = none;
  generation_cost = none;
  currency = none;
  created_at = 200;
}

abbrev evaluation : Evaluation
evaluation = record { evaluation_id = 3; source_hash = "h"; duration_seconds = 1 }

-- the sample whose lease of w1 expired at 230
abbrev expired : BenchmarkSample
expired = record planned {
  status = BenchmarkSampleStatus.generating;
  attempt_count = 1;
  worker_id = some "w1";
  lease_expires_at = some 230;
}

abbrev late : BenchmarkTables
late = record tables { samples = expired ∷ [] }

lost_lease-fenced_example :
    (renew_lease up 1 "w1" 230 30 late ≡ (ok none, late))
    × (store_artifact up 1 "w1" artifact 230 late ≡ (ok false, late))
    × (record_failure up 1 "w1" "provider_timeout" true true 230 5 9 late ≡ (ok none, late))
    × (complete up 1 "w1" evaluation 230 8 late ≡ (ok (3 == 3 && false), late))
unfolding find owns_lease
lost_lease-fenced_example =
    lost_lease-fenced 1 expired "w1" 230 late refl (inr (inl (omega arith))) 30 8 5 9 artifact
      evaluation "provider_timeout" true true

abbrev four : ℕ
four = 4

evaluate_winner_eligibility-eligible_iff_example :
    ((evaluate_winner_eligibility 4 4 4).eligible ≡ true)
    ↔ ((0 < 4) × (four ≡ four) × (four ≡ four) × ((evaluate_winner_eligibility 4 4 4).reasons ≡ []))
evaluate_winner_eligibility-eligible_iff_example = evaluate_winner_eligibility-eligible_iff 4 4 4

-- the first has no complete evaluation, and the second has
abbrev board : List WinnerCandidate
board =
    record {
      model_config_id = 1;
      provider_id = "p";
      model = "m";
      display_name = "M";
      rank = 1;
      weighted_mean_score = some 9500;
      winner_eligible = false;
    }
    ∷ record {
      model_config_id = 2;
      provider_id = "p";
      model = "n";
      display_name = "N";
      rank = 2;
      weighted_mean_score = some 9000;
      winner_eligible = true;
    }
    ∷ []

select_winners-Wins_example :
    Wins is_scored (select_winners board true).observed board
    × Wins may_win (select_winners board true).eligible board
    × ((select_winners board false).observed ≡ none)
    × ((select_winners board false).eligible ≡ none)
select_winners-Wins_example = select_winners-Wins board ((omega arith, tt), (tt, tt))

decode-encode_example :
    decode_failure_diagnostic
      (some (encode_failure_diagnostic (codes "provider_error") (some (codes "refusal"))))
    ≡ record { code = some (codes "provider_error"); detail_code = some (codes "refusal") }
unfolding is_plain member same_text
decode-encode_example = decode-encode (codes "provider_error") (some (codes "refusal")) refl refl
