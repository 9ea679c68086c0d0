-- ===== src/Benchmarks/Invariant/Calls/Storing.antt =====
-- store_artifact and complete keep the samples consistent.
use codejudge_ai.Base.{
  ℕ, ◌≡◌, ◌≢◌, sym, ◌∙◌, arith, Bool, true, false, not, String, Option-cases, inl, inr, List, [],
  ◌∷◌, ◌++◌, is_some, ◌==◌, str_eq, if◌then◌else◌,
}
use codejudge_ai.Base.Errors.{Result, ok, raise, ◌>>=◌}
use codejudge_ai.Base.Table.{find, put, find-append, All-put, All-put_other, Distinct-put}
use codejudge_ai.Benchmarks.Invariant.Rules.{
  Keeps, persistent-Keeps, if-Keeps, IsHeld, found-Keeps, with_sample, with_sample-IsConsistent,
  update_sample-ok, finish_run_if_terminal-IsConsistent,
}
use codejudge_ai.Benchmarks.Invariant.{IsSound, IsStaged, IsCovered, IsConsistent}
use codejudge_ai.Benchmarks.Model.{
  BenchmarkSample, BenchmarkSampleStatus, BenchmarkTables, Evaluation, GeneratedSolutionArtifact,
  sample_key, artifact_key, evaluation_key, is_active, is_generating, is_completed, update_sample,
}
use codejudge_ai.Benchmarks.Samples.{
  owns_lease, store_for, store_artifact, finished, store_evaluation, complete_sample, complete,
}
use codejudge_ai.Benchmarks.Runs.{finish_run_if_terminal}
use codejudge_ai.Jobs.Transaction.{Link}

pub owns_lease-active :
    (sample : BenchmarkSample) (worker_id : String) (now : ℕ)
    → owns_lease sample worker_id now ≡ true
    → is_active sample.status ≡ true
unfolding owns_lease
owns_lease-active sample worker_id now h = ground arith

-- the sample whose artifact is stored
abbrev stored_row : BenchmarkSample → ℕ → BenchmarkSample
stored_row sample now = record sample {
  status = BenchmarkSampleStatus.evaluating;
  updated_at = now;
}

stored_row-IsSound :
    (sample : BenchmarkSample) (now : ℕ)
    → IsSound sample
    → is_active sample.status ≡ true
    → IsSound (stored_row sample now)
stored_row-IsSound sample now s a = ground arith

-- the artifacts of the other samples stay as they are
IsStaged-other :
    (artifacts : List GeneratedSolutionArtifact) (artifact : GeneratedSolutionArtifact)
    (sample : BenchmarkSample)
    → artifact.benchmark_sample_id ≢ sample_key sample
    → IsStaged artifacts sample
    → IsStaged (artifacts ++ artifact ∷ []) sample
unfolding find
IsStaged-other artifacts artifact sample n s =
    let found = find-append artifact_key (sample_key sample) artifacts (artifact ∷ []) in
    (λ h. ground (arith, found, s.0 h), λ h. ground (arith, found, s.1 h))

artifact_stored :
    (artifacts : List GeneratedSolutionArtifact) (artifact : GeneratedSolutionArtifact) (k : ℕ)
    → artifact.benchmark_sample_id ≡ k
    → is_some (find artifact_key k (artifacts ++ artifact ∷ [])) ≡ true
unfolding find
artifact_stored artifacts artifact k e =
    ground (arith, find-append artifact_key k artifacts (artifact ∷ []))

abbrev with_artifact :
    BenchmarkTables → BenchmarkSample → GeneratedSolutionArtifact → ℕ → BenchmarkTables
with_artifact db sample artifact now = record db {
  samples = put sample_key (stored_row sample now) db.samples;
  artifacts = db.artifacts ++ artifact ∷ [];
}

with_artifact-IsConsistent :
    (db : BenchmarkTables) (sample : BenchmarkSample) (artifact : GeneratedSolutionArtifact)
    (now : ℕ)
    → IsConsistent db
    → IsHeld db sample
    → is_active sample.status ≡ true
    → artifact.benchmark_sample_id ≡ sample_key sample
    → IsConsistent (with_artifact db sample artifact now)
with_artifact-IsConsistent db sample artifact now c h a e = record {
  distinct = Distinct-put sample_key (stored_row sample now) db.samples c.distinct;
  sound =
      All-put sample_key IsSound (stored_row sample now) db.samples
        (stored_row-IsSound sample now h.sound a) c.sound;
  staged =
      All-put_other sample_key (IsStaged db.artifacts) (IsStaged (db.artifacts ++ artifact ∷ []))
        (stored_row sample now) db.samples c.distinct
        (
          λ q. absurd (ground arith),
          λ q. artifact_stored db.artifacts artifact (sample_key sample) e,
        )
        (λ other n s. IsStaged-other db.artifacts artifact other (λ same. n (sym same ∙ e)) s)
        c.staged;
  covered =
      All-put sample_key (IsCovered db.outbox) (stored_row sample now) db.samples
        (λ q. absurd (ground arith)) c.covered;
}

store_for-Keeps :
    (worker_id : String) (artifact : GeneratedSolutionArtifact) (now : ℕ) (db : BenchmarkTables)
    (sample : BenchmarkSample)
    → IsConsistent db
    → IsHeld db sample
    → artifact.benchmark_sample_id ≡ sample_key sample
    → Keeps (store_for sample worker_id artifact now db)
unfolding store_for
store_for-Keeps worker_id artifact now db sample c h same =
    if-Keeps (not (owns_lease sample worker_id now)) _ _ (λ e. c)
      (λ e. elim (Option-cases (find artifact_key (sample_key sample) db.artifacts)) [
        | inr (existing, f) ↦ rw f c
        | inl f ↦ rw f (
            if-Keeps (not (is_generating sample.status)) _ _ (λ g. c)
              (λ g.
                rw
                  (update_sample-ok (stored_row sample now)
                    (record db { artifacts = db.artifacts ++ artifact ∷ [] }) h.sound.attempts)
                  (with_artifact-IsConsistent db sample artifact now c h
                    (owns_lease-active sample worker_id now (ground arith)) same)))
      ])

-- `artifact` is the artifact of the sample.
pub store_artifact-IsConsistent :
    (link : Link) (sample_id : ℕ) (worker_id : String) (artifact : GeneratedSolutionArtifact)
    (now : ℕ) (db : BenchmarkTables)
    → artifact.benchmark_sample_id ≡ sample_id
    → IsConsistent db
    → IsConsistent (store_artifact link sample_id worker_id artifact now db).1
unfolding store_artifact
store_artifact-IsConsistent link sample_id worker_id artifact now db same c =
    persistent-Keeps link _ db c (
      found-Keeps sample_id false db (λ sample. store_for sample worker_id artifact now db) c
        (λ sample e h. store_for-Keeps worker_id artifact now db sample c h (same ∙ sym e)))

finished-IsSound :
    (sample : BenchmarkSample) (snapshot : Evaluation) (now total : ℕ)
    → IsSound sample
    → IsSound (finished sample snapshot now total)
finished-IsSound sample snapshot now total s = ground arith

-- the tables are consistent if a part of the body returns
abbrev Stores : Result BenchmarkTables → Type 0
Stores (ok db) = IsConsistent db
Stores (raise e) = Unit {0}

completion-Keeps :
    (sample : BenchmarkSample) (snapshot : Evaluation) (now total : ℕ)
    (stored : Result BenchmarkTables)
    → IsSound sample
    → Stores stored
    → Keeps (
        stored >>= λ db. update_sample (finished sample snapshot now total) db >>= λ updated.
        ok (true, (finish_run_if_terminal sample.plan.benchmark_run_id now updated).1))
completion-Keeps sample snapshot now total (raise e) s c = tt
completion-Keeps sample snapshot now total (ok db) s c =
    let row = finished sample snapshot now total in
    rw (update_sample-ok row db s.attempts) (
      finish_run_if_terminal-IsConsistent sample.plan.benchmark_run_id now (with_sample db row) (
        with_sample-IsConsistent db row c (finished-IsSound sample snapshot now total s)
          (λ q. absurd (ground arith), λ q. absurd (ground arith)) (λ q. absurd (ground arith))))

if-Stores :
    (b : Bool) (r r' : Result BenchmarkTables) → Stores r → Stores r' → Stores (if b then r else r')
if-Stores true r r' h h' = h
if-Stores false r r' h h' = h'

store_evaluation-Stores :
    (snapshot : Evaluation) (db : BenchmarkTables)
    → IsConsistent db
    → Stores (store_evaluation snapshot db)
unfolding store_evaluation
store_evaluation-Stores snapshot db c =
    elim (Option-cases (find evaluation_key snapshot.evaluation_id db.evaluations)) [
      | inl f ↦
          rw (store_evaluation, f)
            (record {
              distinct = c.distinct;
              sound = c.sound;
              staged = c.staged;
              covered = c.covered;
            })
      | inr (existing, f) ↦
          rw (store_evaluation, f)
            (if-Stores (not (str_eq existing.source_hash snapshot.source_hash)) _ _ tt c)
    ]

complete_sample-Keeps :
    (worker_id : String) (snapshot : Evaluation) (now total : ℕ) (db : BenchmarkTables)
    (sample : BenchmarkSample)
    → IsConsistent db
    → IsHeld db sample
    → Keeps (complete_sample sample worker_id snapshot now total db)
unfolding complete_sample
complete_sample-Keeps worker_id snapshot now total db sample c h =
    if-Keeps (not (snapshot.evaluation_id == sample.plan.evaluation_id)) _ _ (λ e. c)
      (λ e.
        if-Keeps (is_completed sample.status) _ _ (λ f. c)
          (λ f.
            if-Keeps (not (owns_lease sample worker_id now)) _ _ (λ g. c)
              (λ g.
                completion-Keeps sample snapshot now total (store_evaluation snapshot db) h.sound
                  (store_evaluation-Stores snapshot db c))))

pub complete-IsConsistent :
    (link : Link) (sample_id : ℕ) (worker_id : String) (snapshot : Evaluation) (now total : ℕ)
    (db : BenchmarkTables)
    → IsConsistent db
    → IsConsistent (complete link sample_id worker_id snapshot now total db).1
unfolding complete
complete-IsConsistent link sample_id worker_id snapshot now total db c =
    persistent-Keeps link _ db c (
      found-Keeps sample_id false db
        (λ sample. complete_sample sample worker_id snapshot now total db) c
        (λ sample e h. complete_sample-Keeps worker_id snapshot now total db sample c h))
