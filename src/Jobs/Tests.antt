-- ===== src/Jobs/Tests.antt =====
-- The calls of the repository on small tables, and the theorems about jobs at them.
use codejudge_ai.Base.{◌≡◌, ◌≢◌, ◌≤◌, ◌+◌, refl, true, false, none, some, [], ◌∷◌, any, Any}
use codejudge_ai.Base.Errors.{ok, infrastructure}
use codejudge_ai.Base.Table.{find, put, insert_row}
use codejudge_ai.Jobs.History.{
  Step, Reach, here, next, claims, completes, inserts, empty_database, Step-IsConsistent,
  Reach-empty-IsConsistent,
}
use codejudge_ai.Jobs.Idempotency.{alone, create-repeated}
use codejudge_ai.Jobs.Invariant.Claim.{claimed, with_job}
use codejudge_ai.Jobs.Invariant.Create.{with_new, insertable}
use codejudge_ai.Jobs.Invariant.{IsConsistent}
use codejudge_ai.Jobs.Lifecycle.{
  Evolves*, claims_in, Allowed, Evolves-Allowed, claims as takes, Evolves,
}
use codejudge_ai.Jobs.Model.{
  Database, EvaluationJob, EvaluationSnapshot, Submission, job_key, job_checks,
}
use codejudge_ai.Jobs.Ownership.{LeadsTo, complete-eq, stale_worker-fenced, pending-announced}
use codejudge_ai.Jobs.Refinement.Steps.{Reach-MovesTo, claims_bounded, terminal_forever}
use codejudge_ai.Jobs.Repository.Claim.{claim, is_worker, renew_lease}
use codejudge_ai.Jobs.Repository.Create.{add_job, create_body, create}
use codejudge_ai.Jobs.Repository.Finish.{
  complete, record_failure, retry_or_fail, outbox_record, finished,
}
use codejudge_ai.Jobs.Retry.{classify_failure}
use codejudge_ai.Jobs.Service.{new_job}
use codejudge_ai.Jobs.State.{queued, running}
use codejudge_ai.Jobs.Transaction.{
  up, down, lost_reply, update_job, add_event, add_evaluation, transaction,
}

-- one job, submitted at time 100, with two attempts
abbrev pub submitted : Submission
submitted = record {
  evaluation_id = 1;
  created_at = 100;
  task_id = "lru-cache";
  task_version = "1.0";
  task_fingerprint = "f";
  tests_fingerprint = "t";
  language = "python";
  source_text = "pass";
  source_hash = "h";
  source_size = 4;
  request_fingerprint = "r";
  idempotency_key = some "key";
  max_attempts = 2;
  expected_execution = record { backend = "docker"; sandbox_image = none; sandbox_image_id = none };
  expected_analyzer_versions = [];
  expected_scoring_policy_version = "1";
  expected_codejudge_version = "1.0";
  expected_ai_identity = "{}";
}

abbrev pub fresh : EvaluationJob
fresh = new_job submitted

abbrev pub queued_db : Database
queued_db = with_new empty_database fresh 7

abbrev pub taken : EvaluationJob
taken = claimed fresh "w1" 200 30

abbrev pub running_db : Database
running_db = with_job queued_db taken

abbrev pub result : EvaluationSnapshot
result = record {
  evaluation_id = 1;
  created_at = 100;
  completed_at = 210;
  duration = 10;
  task_id = "lru-cache";
  task_version = "1.0";
  source_hash = "h";
  final_score = 9000;
}

program : Unit {0}
unfolding find put insert_row any create_body add_job add_event add_evaluation update_job job_checks
    outbox_record retry_or_fail transaction
program = tt

insertion : transaction up (create_body fresh 7) empty_database ≡ (ok tt, queued_db)
unfolding program
insertion = refl

queued_db-Reach : Reach empty_database queued_db
unfolding program
queued_db-Reach = next here (inserts up submitted 7 refl)

pub queued_db-IsConsistent : IsConsistent queued_db
queued_db-IsConsistent = Reach-empty-IsConsistent queued_db-Reach

claim_lem : claim up 1 "w1" 200 30 queued_db ≡ (ok (some taken), running_db)
unfolding program claim
claim_lem = refl

running_db-Step : Step queued_db running_db
unfolding program claim
running_db-Step = claims up 1 "w1" 200 30

pub running_db-IsConsistent : IsConsistent running_db
running_db-IsConsistent = Step-IsConsistent running_db-Step queued_db-IsConsistent

classified :
    classify_failure (infrastructure "The DOCKER daemon is gone")
    ≡ record { retryable = true; category = "infrastructure"; code = "sandbox_unavailable" }
unfolding classify_failure
classified = refl

found : find job_key 1 running_db.jobs ≡ some taken
unfolding find put
found = refl

Step-IsConsistent_example : IsConsistent running_db
Step-IsConsistent_example = Step-IsConsistent running_db-Step queued_db-IsConsistent

claims_bounded_example :
    (last : EvaluationJob) × (find job_key 1 running_db.jobs ≡ some last)
    × (chain : Evolves* fresh last) × (0 + claims_in chain ≤ 2)
unfolding find
claims_bounded_example =
    claims_bounded (next here running_db-Step) 1 fresh queued_db-IsConsistent refl

complete-eq_example :
    complete up up (λ d. d) 1 "w1" result 210 running_db
    ≡ (ok true, record running_db { jobs = finished taken 210 ∷ []; evaluations = result ∷ [] })
unfolding find put is_worker
complete-eq_example =
    complete-eq taken 1 "w1" 210 running_db running_db-IsConsistent found up (λ d. d) result refl

stale_worker-fenced_example :
    (renew_lease up 1 "w2" 220 30 running_db ≡ (ok false, running_db))
    × (complete up up (λ d. d) 1 "w2" result 220 running_db ≡ (ok false, running_db))
    × (record_failure up 1 "w2" (classify_failure (infrastructure "image")) 220 5 9 running_db
        ≡ (ok none, running_db))
unfolding is_worker
stale_worker-fenced_example =
    stale_worker-fenced taken 1 "w2" 220 30 5 9 up (λ d. d) result
      (classify_failure (infrastructure "image")) running_db running_db-IsConsistent found refl refl
      refl

pending-announced_example : Any (LeadsTo queued_db fresh 1) queued_db.outbox
unfolding find
pending-announced_example = pending-announced queued_db 1 fresh queued_db-IsConsistent refl refl

-- the job, completed at time 210
abbrev pub done_db : Database
done_db = record running_db { jobs = finished taken 210 ∷ []; evaluations = result ∷ [] }

done_db-Step : Step running_db done_db
unfolding program complete
done_db-Step = completes up up (λ d. d) 1 "w1" result 210

-- a late claim changes nothing
done_db-claim : Step done_db done_db
unfolding program claim
done_db-claim = claims up 1 "w2" 500 30

terminal_forever_example : find job_key 1 done_db.jobs ≡ some (finished taken 210)
unfolding find
terminal_forever_example =
    terminal_forever (next here done_db-claim) 1 (finished taken 210)
      (Step-IsConsistent done_db-Step running_db-IsConsistent) refl refl

Reach-MovesTo_example :
    (last : EvaluationJob) × (find job_key 1 done_db.jobs ≡ some last) × Evolves* fresh last
unfolding find
Reach-MovesTo_example =
    Reach-MovesTo (next (next here running_db-Step) done_db-Step) queued_db-IsConsistent 1 fresh
      refl

first_claim : Evolves fresh taken
first_claim = takes "w1" 200 30 refl

Evolves-Allowed_example : Allowed queued running
Evolves-Allowed_example = Evolves-Allowed first_claim

insertable_lem : insertable fresh 7 empty_database ≡ true
unfolding find any job_checks
insertable_lem = refl

lost_not-down : lost_reply ≢ down
lost_not-down e = cc

create-repeated_example :
    create up up up alone fresh 8 (create up lost_reply up alone fresh 7 empty_database).1
    ≡ (ok (fresh, false), queued_db)
create-repeated_example =
    create-repeated fresh "key" 7 empty_database refl insertable_lem lost_reply lost_not-down fresh
      up up alone 8 refl refl
