-- ===== src/Benchmarks/Answers/Completions.antt =====
-- A sample that was completed is released.
use codejudge_ai.Benchmarks.Answers.{persistent-ok, found-updated, IsReleased, finish_run-samples}
use codejudge_ai.Base.{
  ℕ, ◌≡◌, refl, ap, ◌∙◌, arith, Bool, true, false, not, inl, inr, String, some, Option-cases, ◌==◌,
  if◌then◌else◌, if-cases,
}
use codejudge_ai.Base.Errors.{Result, ok, ◌>>=◌, >>=-eq-ok}
use codejudge_ai.Base.Table.{find}
use codejudge_ai.Benchmarks.Model.{
  BenchmarkSample, BenchmarkTables, Evaluation, sample_key, is_completed, update_sample,
}
use codejudge_ai.Benchmarks.Runs.{finish_run_if_terminal}
use codejudge_ai.Benchmarks.Samples.{
  owns_lease, finished, store_evaluation, complete_sample, complete,
}
use codejudge_ai.Jobs.Transaction.{Link}

store_evaluation-samples :
    (snapshot : Evaluation) (db db' : BenchmarkTables)
    → store_evaluation snapshot db ≡ ok db'
    → db'.samples ≡ db.samples
unfolding store_evaluation
store_evaluation-samples snapshot db db' h = ground arith

complete_sample-IsReleased :
    (sample_id : ℕ) (sample : BenchmarkSample) (worker_id : String) (snapshot : Evaluation)
    (now total : ℕ) (db db' : BenchmarkTables)
    → find sample_key sample_id db.samples ≡ some sample
    → complete_sample sample worker_id snapshot now total db ≡ ok (true, db')
    → IsReleased db' sample_id
unfolding complete_sample
complete_sample-IsReleased sample_id sample worker_id snapshot now total db db' e h =
    let row = finished sample snapshot now total in
    let ended = λ (updated : BenchmarkTables).
      (finish_run_if_terminal sample.plan.benchmark_run_id now updated).1 in
    let update : BenchmarkTables → Result (Bool × BenchmarkTables) =
      λ stored. update_sample row stored >>= λ updated. ok (true, ended updated) in
    let store : Result (Bool × BenchmarkTables) = store_evaluation snapshot db >>= update in
    let tried : Result (Bool × BenchmarkTables) =
      if not (owns_lease sample worker_id now) then ok (false, db) else store in
    if-cases (not (snapshot.evaluation_id == sample.plan.evaluation_id)) (ok (false, db))
      (if is_completed sample.status then ok (true, db) else tried) (ok (true, db')) h
      (λ _ bad. absurd (cc))
      (λ _ h'.
        if-cases (is_completed sample.status) (ok (true, db)) tried (ok (true, db')) h'
          (λ done same. (sample, ground (arith, same), ground arith))
          (λ _ h''.
            if-cases (not (owns_lease sample worker_id now)) (ok (false, db)) store (ok (true, db'))
              h'' (λ _ bad. absurd (cc))
              (λ _ made.
                let stored = >>=-eq-ok (store_evaluation snapshot db) update made in
                let updated =
                  >>=-eq-ok (update_sample row stored.0) (λ updated. ok (true, ended updated))
                    stored.2 in
                let last : ended updated.0 ≡ db' = ground (arith, updated.2) in
                let kept : stored.0.samples ≡ db.samples =
                  store_evaluation-samples snapshot db stored.0 stored.1 in
                let found =
                  found-updated sample_id sample row stored.0 updated.0
                    (ap (λ rows. find sample_key sample_id rows) kept ∙ e) refl updated.1 in
                (
                  row,
                  rw (← last) (
                      ap (λ rows. find sample_key sample_id rows)
                        (finish_run-samples sample.plan.benchmark_run_id now updated.0)
                      ∙ found),
                  refl,
                ))))

pub complete-IsReleased :
    (link : Link) (sample_id : ℕ) (worker_id : String) (snapshot : Evaluation) (now total : ℕ)
    (db db' : BenchmarkTables)
    → complete link sample_id worker_id snapshot now total db ≡ (ok true, db')
    → IsReleased db' sample_id
unfolding complete
complete-IsReleased link sample_id worker_id snapshot now total db db' h =
    let made = persistent-ok link _ db true db' h in
    elim (Option-cases (find sample_key sample_id db.samples)) [
      | inl e ↦ absurd (ground (arith, e, made))
      | inr (sample, e) ↦
          complete_sample-IsReleased sample_id sample worker_id snapshot now total db db' e
            (ground (arith, e, made))
    ]
