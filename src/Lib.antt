-- ===== src/Lib.antt =====
-- Verification of the evaluation service: durable evaluation jobs, the worker that processes them,
-- the evaluator that scores a submission, the assessment by language models, the benchmarks of
-- such models, and the trusted reference solutions of the tasks.
--
-- A client's submission becomes a job and an outbox event in one transaction (app/jobs/service.py,
-- app/jobs/repositories.py). A publisher takes ready events to a queue, and a worker takes a
-- message from it (app/worker/service.py), claims the job with a lease, validates its identity,
-- has it evaluated (app/evaluator) and records the completion or the failure; failures that are
-- retryable put the job and a new event back. Jobs whose worker is gone are recovered.
--
-- Base holds what the parts share: Boolean tests, lists over native numbers, exceptions as values
-- (Errors), tables with a primary key (Table), sorting and SELECT (Sort, Select), text (Text).
--
-- Jobs models app/jobs: State the statuses and `_TRANSITIONS`, Retry the failure policy, Model the
-- rows of app/db/models.py, Transaction a session on the tables with the ways the database may
-- answer (up, down, or committed with the reply lost). Jobs/Repository has one file per group of
-- calls of SqlAlchemyEvaluationJobRepository: Create, Claim, Finish (complete, record_failure; the
-- snapshots are taken to be within the CHECK constraints of the evaluations table), Recover,
-- Outbox. A row lock makes a call atomic, so that a history (Jobs/History) is a sequence of calls.
-- Jobs/Invariant says what holds of consistent tables, Jobs/Lifecycle is the state machine of one
-- job, Jobs/Refinement shows that the calls follow it, Jobs/Ownership says what each call answers,
-- and Jobs/Idempotency what a repeated submission does. The lists of jobs for the API are not
-- modelled.
--
-- Evaluator models app/evaluator and `get` of app/tasks/registry.py: Models the records, Scoring
-- the policy in hundredths of a point with exact decimals in place of floats, Findings the
-- messages, Engine evaluate_outcome with prepare_request. What the runner and the analyzers answer
-- is an argument.
--
-- Worker models process_message and _validated_request of app/worker/service.py. The surroundings
-- of a message are a record: how the database and the queue answer, the clock, and what other
-- processes and the heartbeat do before the claim, during the evaluation and before the second
-- lookup of a refused completion. Heartbeat models _renew_lease, whose turns are a list, and
-- recover_stale. Cancellation of the worker's task is left out.
--
-- Publisher models OutboxPublisher of app/queue/outbox.py over the repository's calls, with the
-- append of RedisStreamsQueue.enqueue (app/queue/redis_streams.py) to the messages that were ever
-- in the stream.
--
-- Tasks models reference solutions under app/tasks/definitions: CircuitBreaker, RetryBackoff,
-- IntervalReservation, RateLimiter, FrameDecoder. The loop of the decoder runs on fuel, two turns
-- more than its buffer is long, which is enough. Listing the reservations of a resource is left
-- out, and an operation of the breaker raises an Exception or none. Times and delays are natural
-- numbers, and arguments are typed, so that checks of types have no counterpart.
--
-- Benchmarks models app/benchmarks: Model the rows of the benchmark tables and their transactions,
-- Runs _finish_run_if_terminal and reconcile_terminal_runs, Samples claim, renew_lease,
-- store_artifact and complete, Failures record_failure and recover_stale, Outbox ready_outbox and
-- _update_outbox of app/benchmarks/repositories.py, Winners app/benchmarks/winners.py, Reliability
-- app/benchmarks/reliability.py over code points (the counts of details are left out).
-- Benchmarks/Invariant says what holds of the samples, Benchmarks/Fence what a worker without a
-- lease can do. Benchmarks/Generation models _generate of app/benchmarks/worker.py with prompts.py
-- and pricing.py, and Benchmarks/Worker the rest of worker.py: Lease _renew_before_expiry and
-- _renew_lease, Process _process_claimed and _run_with_lease, Message process_message.
-- Benchmarks/Answers has what an answer of the repository says of the tables. A loop runs through
-- the rounds that its surroundings list and finds the stop event set after the last; a processing
-- that is cancelled is one whose next call is not made or whose reply is not seen. Log lines are
-- left out.
--
-- Ai models app/ai: Models the records, Platform the language's own functions and the provider's
-- and the sandbox's answers as an argument, Prompts, Scoring in the units of each score,
-- Validation the policy of generated tests over parsed trees, Judge and Adversarial the two
-- services, Service the assessment made of them. Calls of a provider are numbered, so that each
-- may answer differently. The HTTP provider, the Docker sandbox and the factory of the services
-- are not modelled.
--
-- UUIDs and datetimes are natural numbers. Recursion is structural everywhere else. Not modelled:
-- runners and sandboxes, the analyzers, the HTTP API, the database drivers and migrations, and of
-- the benchmarks the creation of runs (create_plan), the queue, statistics and reports.

pub mod Base
pub mod Ai
pub mod Benchmarks
pub mod Evaluator
pub mod Jobs
pub mod Publisher
pub mod Tasks
pub mod Worker
