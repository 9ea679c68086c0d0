-- ===== src/Benchmarks/Invariant/Histories.antt =====
-- Any call on the samples and their outbox, by any worker or publisher.
use codejudge_ai.Base.{ℕ, ◌≡◌, Bool, true, false, String}
use codejudge_ai.Benchmarks.Failures.{record_failure, recover_stale}
use codejudge_ai.Benchmarks.Outbox.{mark_outbox_published, mark_outbox_failed}
use codejudge_ai.Benchmarks.Invariant.Calls.Publishing.{update_outbox-IsConsistent}
use codejudge_ai.Benchmarks.Invariant.Calls.Recovering.{
  record_failure-IsConsistent, recover_stale-IsConsistent,
}
use codejudge_ai.Benchmarks.Invariant.Calls.Storing.{
  store_artifact-IsConsistent, complete-IsConsistent,
}
use codejudge_ai.Benchmarks.Invariant.Calls.{claim-IsConsistent, renew_lease-IsConsistent}
use codejudge_ai.Benchmarks.Invariant.{IsConsistent}
use codejudge_ai.Benchmarks.Model.{BenchmarkTables, Evaluation, GeneratedSolutionArtifact}
use codejudge_ai.Benchmarks.Samples.{claim, renew_lease, store_artifact, complete}
use codejudge_ai.Jobs.Transaction.{Link}

-- The artifact that a worker stores is the sample's own; the calls are free otherwise.
pub data SampleStep (db : BenchmarkTables) : BenchmarkTables → Type 0 where
  claims :
      (link : Link) (sample_id : ℕ) (worker_id : String) (now lease : ℕ)
      → SampleStep db (claim link sample_id worker_id now lease db).1
  renews :
      (link : Link) (sample_id : ℕ) (worker_id : String) (now lease : ℕ)
      → SampleStep db (renew_lease link sample_id worker_id now lease db).1
  stores :
      (link : Link) (sample_id : ℕ) (worker_id : String) (artifact : GeneratedSolutionArtifact)
      (now : ℕ)
      → artifact.benchmark_sample_id ≡ sample_id
      → SampleStep db (store_artifact link sample_id worker_id artifact now db).1
  completes :
      (link : Link) (sample_id : ℕ) (worker_id : String) (snapshot : Evaluation) (now total : ℕ)
      → SampleStep db (complete link sample_id worker_id snapshot now total db).1
  fails :
      (link : Link) (sample_id : ℕ) (worker_id code : String) (generation retryable : Bool)
      (now base event_id : ℕ)
      → SampleStep db
          (record_failure link sample_id worker_id code generation retryable now base event_id db).1
  recovers :
      (link : Link) (uuid : ℕ → ℕ) (locked : ℕ → Bool) (now base limit : ℕ)
      → SampleStep db (recover_stale link uuid locked now base limit db).1
  publishes :
      (link : Link) (event_id now : ℕ)
      → SampleStep db (mark_outbox_published link event_id now db).1
  defers :
      (link : Link) (event_id now base : ℕ)
      → SampleStep db (mark_outbox_failed link event_id now base db).1

-- Every call on the samples of benchmarks and their outbox, on every branch and however the
-- database answers, keeps them consistent: attempts stay within their limit and are left for a
-- pending sample, exactly the samples that are being worked on have a worker and a lease and
-- exactly the terminal ones an end, a sample has its artifact at the stages after generation and
-- none before, and a pending sample has an event in the outbox. A stored artifact is that of the
-- sample.
pub SampleStep-IsConsistent :
    {db db' : BenchmarkTables} → SampleStep db db' → IsConsistent db → IsConsistent db'
unfolding mark_outbox_published mark_outbox_failed
SampleStep-IsConsistent {db} (claims link sample_id worker_id now lease) c =
    claim-IsConsistent link sample_id worker_id now lease db c
SampleStep-IsConsistent {db} (renews link sample_id worker_id now lease) c =
    renew_lease-IsConsistent link sample_id worker_id now lease db c
SampleStep-IsConsistent {db} (stores link sample_id worker_id artifact now same) c =
    store_artifact-IsConsistent link sample_id worker_id artifact now db same c
SampleStep-IsConsistent {db} (completes link sample_id worker_id snapshot now total) c =
    complete-IsConsistent link sample_id worker_id snapshot now total db c
SampleStep-IsConsistent {db}
      (fails link sample_id worker_id code generation retryable now base event_id) c =
    record_failure-IsConsistent link sample_id worker_id code generation retryable now base event_id
      db c
SampleStep-IsConsistent {db} (recovers link uuid locked now base limit) c =
    recover_stale-IsConsistent link uuid locked now base limit db c
SampleStep-IsConsistent {db} (publishes link event_id now) c =
    update_outbox-IsConsistent link event_id now true 0 db c
SampleStep-IsConsistent {db} (defers link event_id now base) c =
    update_outbox-IsConsistent link event_id now false base db c
