-- ===== src/Worker/Tests.antt =====
-- A worker that takes the job of one message, and the theorems about messages at it.
use codejudge_ai.Base.{◌≡◌, refl, String, str_eq_iff, true, false, none, []}
use codejudge_ai.Base.Errors.{Error, Result, ok, raise, infrastructure}
use codejudge_ai.Base.Table.{find, put}
use codejudge_ai.Jobs.Invariant.Complete.{with_snapshot}
use codejudge_ai.Jobs.Invariant.Claim.{with_job}
use codejudge_ai.Jobs.Invariant.Finish.{stopped, with_retry}
use codejudge_ai.Jobs.Model.{Database, EvaluationSnapshot}
use codejudge_ai.Jobs.Retry.{classify_failure}
use codejudge_ai.Jobs.Repository.Claim.{is_worker}
use codejudge_ai.Jobs.Repository.Finish.{outbox_record}
use codejudge_ai.Jobs.Tests.{
  fresh, queued_db, taken, running_db, result, queued_db-IsConsistent, running_db-IsConsistent,
}
use codejudge_ai.Jobs.Transaction.{up}
use codejudge_ai.Worker.Deliveries.{
  IsUp, early_message-acknowledged, success-completes, failure-recorded, mismatch-stopped,
}
use codejudge_ai.Worker.Identity.{IsSameTask, IsSameRuntime}
use codejudge_ai.Worker.Process.{Worker, Surroundings, acknowledged, process_message, evaluated}
use codejudge_ai.Worker.Validation.{
  Present, validated_request, validated_task, validated_runtime, same_execution, same_versions,
  same_option, has_versions,
}

abbrev worker : Worker
worker = record { worker_id = "w1"; lease_seconds = 30; retry_base_delay_seconds = 5 }

abbrev present : Present
present = record {
  source_hash = "h";
  source_size = 4;
  prepare_request = ok tt;
  task_version = "1.0";
  tests_fingerprint = "t";
  task_fingerprint = "f";
  runtime_identity = ok tt;
  analyzer_versions = [];
  scoring_policy_version = "1";
  codejudge_version = "1.0";
  execution = record { backend = "docker"; sandbox_image = none; sandbox_image_id = none };
}

abbrev unchanged : Database → Database
unchanged db = db

abbrev surroundings : Result EvaluationSnapshot → Surroundings
surroundings outcome = record {
  lookup_link = up;
  claim_link = up;
  complete_link = up;
  again_link = up;
  failure_link = up;
  queue_up = true;
  claim_time = 200;
  complete_time = 210;
  failure_time = 220;
  event_id = 9;
  present = present;
  evaluate_snapshot = λ job. outcome;
  before = unchanged;
  during = unchanged;
  between = unchanged;
}

surroundings-IsUp : (outcome : Result EvaluationSnapshot) → IsUp (surroundings outcome)
surroundings-IsUp outcome = record {
  lookup_up = refl;
  claim_up = refl;
  complete_up = refl;
  failure_up = refl;
  queue_up = refl;
}

succeeding : evaluated (surroundings (ok result)) taken ≡ ok result
unfolding evaluated validated_request validated_task validated_runtime same_execution same_versions
    same_option has_versions
succeeding = refl

abbrev broken : Error
broken = infrastructure "image"

failing : evaluated (surroundings (raise broken)) taken ≡ raise broken
unfolding evaluated validated_request validated_task validated_runtime same_execution same_versions
    same_option has_versions
failing = refl

success-completes_example :
    process_message worker (surroundings (ok result)) 1 queued_db
    ≡ (acknowledged, with_snapshot running_db taken result 210)
unfolding find put is_worker
success-completes_example =
    success-completes worker (surroundings (ok result)) 1 queued_db fresh fresh
      (surroundings-IsUp (ok result)) refl refl queued_db-IsConsistent refl refl taken
      running_db-IsConsistent refl result succeeding refl

failure-recorded_example :
    process_message worker (surroundings (raise broken)) 1 queued_db
    ≡ (acknowledged, with_retry running_db taken "infrastructure" "sandbox_unavailable" 220 5 9)
unfolding find put is_worker classify_failure outbox_record
failure-recorded_example =
    failure-recorded worker (surroundings (raise broken)) 1 queued_db fresh fresh
      (surroundings-IsUp (raise broken)) refl refl queued_db-IsConsistent refl refl taken
      running_db-IsConsistent refl broken failing refl

early_message-acknowledged_example :
    process_message worker (surroundings (ok result)) 1 running_db ≡ (acknowledged, running_db)
unfolding find put
early_message-acknowledged_example =
    early_message-acknowledged worker (surroundings (ok result)) 1 running_db taken
      (surroundings-IsUp (ok result)) running_db-IsConsistent refl refl refl

-- the task has a new version when the job is claimed
abbrev newer : Surroundings
newer = record (surroundings (ok result)) { present = record present { task_version = "2.0" } }

newer-IsUp : IsUp newer
newer-IsUp = record {
  lookup_up = refl;
  claim_up = refl;
  complete_up = refl;
  failure_up = refl;
  queue_up = refl;
}

newer-differs : IsSameTask taken newer.present × IsSameRuntime taken newer.present → ⊥
newer-differs h =
    let same : false ≡ true = (str_eq_iff "2.0" "1.0").1 h.0.task_version in absurd (cc)

mismatch-stopped_example :
    (code : String) × (process_message worker newer 1 queued_db
      ≡ (acknowledged, with_job running_db (stopped taken "integrity" code 220)))
unfolding find put is_worker
mismatch-stopped_example =
    mismatch-stopped worker newer 1 queued_db fresh fresh newer-IsUp refl refl
      queued_db-IsConsistent refl refl taken running_db-IsConsistent refl newer-differs refl refl
