-- ===== src/Benchmarks/Samples.antt =====
-- claim, renew_lease, store_artifact and complete of app/benchmarks/repositories.py.
use codejudge_ai.Base.{
  ℕ, ◌+◌, Bool, true, false, not, ◌&&◌, ◌||◌, String, Option, none, some, [], ◌∷◌, ◌++◌, ltb, ◌==◌,
  str_eq, is_some, if◌then◌else◌,
}
use codejudge_ai.Base.Errors.{Result, ok, raise, ◌>>=◌, persistence_error}
use codejudge_ai.Base.Table.{find, put}
use codejudge_ai.Benchmarks.Model.{
  BenchmarkRun, BenchmarkRunStatus, BenchmarkSample, BenchmarkSampleStatus, BenchmarkTables,
  Evaluation, GeneratedSolutionArtifact, sample_key, artifact_key, evaluation_key, run_key,
  is_pending, is_active, is_generating, is_completed, update_sample, persistent,
}
use codejudge_ai.Benchmarks.Runs.{finish_run_if_terminal}
use codejudge_ai.Jobs.Transaction.{Link}

-- `record.worker_id == worker_id`
abbrev pub is_worker : Option String → String → Bool
is_worker none worker_id = false
is_worker (some holder) worker_id = str_eq holder worker_id

-- there is a lease, and it has not expired
abbrev pub is_leased : Option ℕ → ℕ → Bool
is_leased none now = false
is_leased (some expires_at) now = ltb now expires_at

-- _owns_active_benchmark_lease
unfoldable pub owns_lease : BenchmarkSample → String → ℕ → Bool
owns_lease sample worker_id now =
    is_worker sample.worker_id worker_id
    && is_leased sample.lease_expires_at now
    && is_active sample.status

-- the fields that a claim writes
abbrev pub claimed : BenchmarkSample → Bool → String → ℕ → ℕ → BenchmarkSample
claimed sample has_artifact worker_id now lease = record sample {
  status =
      if has_artifact then BenchmarkSampleStatus.evaluating else BenchmarkSampleStatus.generating;
  attempt_count = sample.attempt_count + 1;
  worker_id = some worker_id;
  lease_expires_at = some (now + lease);
  updated_at = now;
}

abbrev pub is_queued : BenchmarkRunStatus → Bool
is_queued BenchmarkRunStatus.queued = true
is_queued _ = false

abbrev pub start_queued : BenchmarkRun → ℕ → BenchmarkTables → BenchmarkTables
start_queued run now db =
    if is_queued run.status
    then record db {
      runs =
          put run_key (record run { status = BenchmarkRunStatus.running; started_at = some now })
            db.runs;
    }
    else db

-- the first claim starts the run
unfoldable pub start_run : ℕ → ℕ → BenchmarkTables → BenchmarkTables
start_run run_id now db = elim (find run_key run_id db.runs) [
  | none ↦ db
  | some run ↦ start_queued run now db
]

unfoldable pub claim_sample :
    BenchmarkSample
    → String
    → ℕ
    → ℕ
    → BenchmarkTables
    → Result (Option BenchmarkSample × BenchmarkTables)
claim_sample sample worker_id now lease db =
    if not (is_pending sample.status)
    then ok (none, db)
    else let row =
        claimed sample (is_some (find artifact_key (sample_key sample) db.artifacts)) worker_id now
          lease in
      update_sample row db >>= λ db'. ok (some row, start_run sample.plan.benchmark_run_id now db')

unfoldable pub claim :
    Link → ℕ → String → ℕ → ℕ → BenchmarkTables → Result (Option BenchmarkSample) × BenchmarkTables
claim link sample_id worker_id now lease = persistent link λ db.
    elim (find sample_key sample_id db.samples) [
      | none ↦ ok (none, db)
      | some sample ↦ claim_sample sample worker_id now lease db
    ]

-- the new expiry is the answer
unfoldable pub renew_sample :
    BenchmarkSample → String → ℕ → ℕ → BenchmarkTables → Result (Option ℕ × BenchmarkTables)
renew_sample sample worker_id now lease db =
    if not (is_worker sample.worker_id worker_id) || not (is_leased sample.lease_expires_at now)
    then ok (none, db)
    else if not (is_active sample.status)
    then ok (none, db)
    else (update_sample (record sample { lease_expires_at = some (now + lease); updated_at = now })
          db
        >>= λ db'. ok (some (now + lease), db'))

unfoldable pub renew_lease :
    Link → ℕ → String → ℕ → ℕ → BenchmarkTables → Result (Option ℕ) × BenchmarkTables
renew_lease link sample_id worker_id now lease = persistent link λ db.
    elim (find sample_key sample_id db.samples) [
      | none ↦ ok (none, db)
      | some sample ↦ renew_sample sample worker_id now lease db
    ]

unfoldable pub store_for :
    BenchmarkSample
    → String
    → GeneratedSolutionArtifact
    → ℕ
    → BenchmarkTables
    → Result (Bool × BenchmarkTables)
store_for sample worker_id artifact now db =
    if not (owns_lease sample worker_id now)
    then ok (false, db)
    else elim (find artifact_key (sample_key sample) db.artifacts) [
      | some existing ↦ ok (str_eq existing.source_hash artifact.source_hash, db)
      | none ↦
          if not (is_generating sample.status)
          then ok (false, db)
          else (update_sample
                (record sample { status = BenchmarkSampleStatus.evaluating; updated_at = now })
                (record db { artifacts = db.artifacts ++ artifact ∷ [] })
              >>= λ db'. ok (true, db'))
    ]

-- `artifact` is the sample's own, so that the primary key cannot refuse it.
unfoldable pub store_artifact :
    Link
    → ℕ
    → String
    → GeneratedSolutionArtifact
    → ℕ
    → BenchmarkTables
    → Result Bool × BenchmarkTables
store_artifact link sample_id worker_id artifact now = persistent link λ db.
    elim (find sample_key sample_id db.samples) [
      | none ↦ ok (false, db)
      | some sample ↦ store_for sample worker_id artifact now db
    ]

-- the fields that a completion writes
abbrev pub finished : BenchmarkSample → Evaluation → ℕ → ℕ → BenchmarkSample
finished sample snapshot now total_duration_seconds = record sample {
  status = BenchmarkSampleStatus.completed;
  failure_code = none;
  evaluation_duration_seconds = some snapshot.duration_seconds;
  total_duration_seconds = some total_duration_seconds;
  completed_at = some now;
  updated_at = now;
  worker_id = none;
  lease_expires_at = none;
}

-- the evaluation is stored, or is there already with the same source
unfoldable pub store_evaluation : Evaluation → BenchmarkTables → Result BenchmarkTables
store_evaluation snapshot db = elim (find evaluation_key snapshot.evaluation_id db.evaluations) [
  | none ↦ ok (record db { evaluations = db.evaluations ++ snapshot ∷ [] })
  | some existing ↦
      if not (str_eq existing.source_hash snapshot.source_hash)
      then raise persistence_error
      else ok db
]

unfoldable pub complete_sample :
    BenchmarkSample
    → String
    → Evaluation
    → ℕ
    → ℕ
    → BenchmarkTables
    → Result (Bool × BenchmarkTables)
complete_sample sample worker_id snapshot now total_duration_seconds db =
    if not (snapshot.evaluation_id == sample.plan.evaluation_id)
    then ok (false, db)
    else if is_completed sample.status
    then ok (true, db)
    else if not (owns_lease sample worker_id now)
    then ok (false, db)
    else (store_evaluation snapshot db >>= λ stored.
        update_sample (finished sample snapshot now total_duration_seconds) stored >>= λ updated.
        ok (true, (finish_run_if_terminal sample.plan.benchmark_run_id now updated).1))

unfoldable pub complete :
    Link → ℕ → String → Evaluation → ℕ → ℕ → BenchmarkTables → Result Bool × BenchmarkTables
complete link sample_id worker_id snapshot now total_duration_seconds = persistent link λ db.
    elim (find sample_key sample_id db.samples) [
      | none ↦ ok (false, db)
      | some sample ↦ complete_sample sample worker_id snapshot now total_duration_seconds db
    ]
