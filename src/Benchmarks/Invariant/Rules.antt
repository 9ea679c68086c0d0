-- ===== src/Benchmarks/Invariant/Rules.antt =====
-- Rules for calls that keep the samples consistent.
use codejudge_ai.Base.{
  ℕ, ◌≤◌, ◌≡◌, refl, arith, Bool, true, false, none, some, Option-cases, inl, inr, ◌==◌,
  if◌then◌else◌,
}
use codejudge_ai.Base.Errors.{Result, ok, raise}
use codejudge_ai.Base.Table.{find, put, All-put, All-find, Distinct-put, key-find}
use codejudge_ai.Benchmarks.Invariant.{IsSound, IsStaged, IsCovered, IsConsistent}
use codejudge_ai.Benchmarks.Model.{
  BenchmarkSample, BenchmarkTables, sample_key, run_key, update_sample, persistent, settled,
}
use codejudge_ai.Benchmarks.Runs.{finish_run, finish_run_if_terminal, remaining}
use codejudge_ai.Benchmarks.Samples.{is_queued, start_run}
use codejudge_ai.Jobs.Transaction.{Link, up, down, lost_reply}

-- the tables are consistent if the body commits
abbrev pub Keeps {ℓ} : {A : Type ℓ} → Result (A × BenchmarkTables) → Type 0
Keeps (ok (a, db)) = IsConsistent db
Keeps (raise e) = Unit {0}

settled-Keeps {ℓ} :
    {A : Type ℓ} (r : Result (A × BenchmarkTables)) (db : BenchmarkTables)
    → IsConsistent db
    → Keeps r
    → IsConsistent (settled r db).1
unfolding settled
settled-Keeps (ok (a, db')) db c k = k
settled-Keeps (raise e) db c k = c

pub persistent-Keeps {ℓ} :
    {A : Type ℓ} (link : Link) (body : BenchmarkTables → Result (A × BenchmarkTables))
    (db : BenchmarkTables)
    → IsConsistent db
    → Keeps (body db)
    → IsConsistent (persistent link body db).1
unfolding persistent
persistent-Keeps up body db c k = settled-Keeps (body db) db c k
persistent-Keeps down body db c k = c
persistent-Keeps lost_reply body db c k = settled-Keeps (body db) db c k

pub if-Keeps {ℓ} :
    {A : Type ℓ} (b : Bool) (r r' : Result (A × BenchmarkTables))
    → (b ≡ true → Keeps r)
    → (b ≡ false → Keeps r')
    → Keeps (if b then r else r')
if-Keeps true r r' h h' = h refl
if-Keeps false r r' h h' = h' refl

-- a sample of consistent tables
pub record IsHeld (db : BenchmarkTables) (sample : BenchmarkSample) : Type 0 where
  pub sound : IsSound sample
  pub staged : IsStaged db.artifacts sample
  pub covered : IsCovered db.outbox sample

pub found-Keeps {ℓ} :
    {A : Type ℓ} (sample_id : ℕ) (a : A) (db : BenchmarkTables)
    (f : BenchmarkSample → Result (A × BenchmarkTables))
    → IsConsistent db
    → ((sample : BenchmarkSample)
        → sample_key sample ≡ sample_id
        → IsHeld db sample
        → Keeps (f sample))
    → Keeps
        (elim (find sample_key sample_id db.samples) [ none ↦ ok (a, db) | some sample ↦ f sample ])
found-Keeps sample_id a db f c k = elim (Option-cases (find sample_key sample_id db.samples)) [
  | inl e ↦ rw e c
  | inr (sample, e) ↦ rw e (
      k sample (key-find sample_key sample_id db.samples sample e) (record {
        sound = All-find sample_key IsSound sample_id db.samples sample c.sound e;
        staged = All-find sample_key (IsStaged db.artifacts) sample_id db.samples sample c.staged e;
        covered = All-find sample_key (IsCovered db.outbox) sample_id db.samples sample c.covered e;
      }))
]

abbrev pub with_sample : BenchmarkTables → BenchmarkSample → BenchmarkTables
with_sample db sample = record db { samples = put sample_key sample db.samples }

pub with_sample-IsConsistent :
    (db : BenchmarkTables) (row : BenchmarkSample)
    → IsConsistent db
    → IsSound row
    → IsStaged db.artifacts row
    → IsCovered db.outbox row
    → IsConsistent (with_sample db row)
with_sample-IsConsistent db row c s t v = record {
  distinct = Distinct-put sample_key row db.samples c.distinct;
  sound = All-put sample_key IsSound row db.samples s c.sound;
  staged = All-put sample_key (IsStaged db.artifacts) row db.samples t c.staged;
  covered = All-put sample_key (IsCovered db.outbox) row db.samples v c.covered;
}

pub update_sample-ok :
    (row : BenchmarkSample) (db : BenchmarkTables)
    → row.attempt_count ≤ row.plan.max_attempts
    → update_sample row db ≡ ok (with_sample db row)
unfolding update_sample
update_sample-ok row db h = ground arith

if-IsConsistent :
    (b : Bool) (x y : BenchmarkTables)
    → IsConsistent x
    → IsConsistent y
    → IsConsistent (if b then x else y)
if-IsConsistent true x y c d = c
if-IsConsistent false x y c d = d

-- a change of the runs alone
pub start_run-IsConsistent :
    (run_id now : ℕ) (db : BenchmarkTables)
    → IsConsistent db
    → IsConsistent (start_run run_id now db)
unfolding start_run
start_run-IsConsistent run_id now db c = elim (Option-cases (find run_key run_id db.runs)) [
  | inl e ↦ rw (start_run, e) c
  | inr (run, e) ↦
      rw (start_run, e)
        (if-IsConsistent (is_queued run.status) _ _
          (record {
            distinct = c.distinct;
            sound = c.sound;
            staged = c.staged;
            covered = c.covered;
          })
          c)
]

if-finish :
    (b : Bool) (x y : Bool × BenchmarkTables)
    → IsConsistent x.1
    → IsConsistent y.1
    → IsConsistent (if b then x else y).1
if-finish true x y c d = c
if-finish false x y c d = d

pub finish_run_if_terminal-IsConsistent :
    (run_id now : ℕ) (db : BenchmarkTables)
    → IsConsistent db
    → IsConsistent (finish_run_if_terminal run_id now db).1
unfolding finish_run_if_terminal finish_run
finish_run_if_terminal-IsConsistent run_id now db c =
    elim (Option-cases (find run_key run_id db.runs)) [
      | inl e ↦ rw (finish_run_if_terminal, e) c
      | inr (run, e) ↦
          rw (finish_run_if_terminal, e)
            (if-finish (remaining run.benchmark_run_id db.samples == 0) _ _
              (record {
                distinct = c.distinct;
                sound = c.sound;
                staged = c.staged;
                covered = c.covered;
              })
              c)
    ]
