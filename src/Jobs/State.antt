-- ===== src/Jobs/State.antt =====
-- app/jobs/state.py and the statuses of app/jobs/models.py.
use codejudge_ai.Base.{Bool, true, false, if◌then◌else◌}
use codejudge_ai.Base.Errors.{Result, ok, raise, invalid_transition}

pub data JobStatus : Type 0 where
  queued running retry_wait completed failed : JobStatus

-- membership in `_TRANSITIONS[current]`
unfoldable pub transitions : JobStatus → JobStatus → Bool
transitions queued running = true
transitions running completed = true
transitions running retry_wait = true
transitions running failed = true
transitions retry_wait queued = true
transitions _ _ = false

unfoldable pub ensure_transition : JobStatus → JobStatus → Result (Unit {0})
unfolding transitions
ensure_transition current target =
    if transitions current target then ok tt else raise invalid_transition

-- membership in TERMINAL_JOB_STATUSES
abbrev pub is_terminal : JobStatus → Bool
is_terminal completed = true
is_terminal failed = true
is_terminal _ = false

-- the set {QUEUED, RETRY_WAIT} of the worker
abbrev pub is_pending : JobStatus → Bool
is_pending queued = true
is_pending retry_wait = true
is_pending _ = false

abbrev pub is_queued : JobStatus → Bool
is_queued queued = true
is_queued _ = false

abbrev pub is_running : JobStatus → Bool
is_running running = true
is_running _ = false

abbrev pub is_completed : JobStatus → Bool
is_completed completed = true
is_completed _ = false
