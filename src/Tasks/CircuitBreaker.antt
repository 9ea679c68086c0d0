-- ===== src/Tasks/CircuitBreaker.antt =====
-- app/tasks/definitions/circuit_breaker/reference/solution.py. The state is a value that `call`
-- passes on, times are natural numbers, and an operation is what it would return, or none where it
-- would raise.
pub mod Opening
use codejudge_ai.Base.{ℕ, ◌+◌, Bool, true, false, Option, none, some, ltb, leb, ◌==◌, if◌then◌else◌}
use codejudge_ai.Base.Errors.{Result, ok, raise, value_error}

pub data BreakerState : Type 0 where
  closed opened half_open : BreakerState

pub record CircuitBreaker : Type 0 where
  pub threshold : ℕ
  pub recovery_timeout : ℕ
  pub state : BreakerState
  pub failure_count : ℕ
  pub opened_at : Option ℕ
  pub last_now : Option ℕ

-- What a call does: it returns the operation's result or raises its exception; or it raises without
-- having run the operation: CircuitOpenError, ValueError for the timestamp, or the assertion.
pub data Call {ℓ} (A : Type ℓ) : Type ℓ where
  returned : A → Call A
  operation_raised : Call A
  circuit_open : Call A
  timestamps_decrease : Call A
  assertion_failed : Call A

unfoldable pub init : ℕ → ℕ → Result CircuitBreaker
init failure_threshold recovery_timeout =
    if failure_threshold == 0
    then raise value_error
    else if recovery_timeout == 0
    then raise value_error
    else ok (record {
      threshold = failure_threshold;
      recovery_timeout = recovery_timeout;
      state = closed;
      failure_count = 0;
      opened_at = none;
      last_now = none;
    })

-- `self._open`
abbrev pub trip : ℕ → CircuitBreaker → CircuitBreaker
trip now b = record b { state = opened; opened_at = some now; failure_count = 0 }

abbrev pub restored : CircuitBreaker → CircuitBreaker
restored b = record b { state = closed; failure_count = 0; opened_at = none }

unfoldable pub reset : CircuitBreaker → CircuitBreaker
reset b = record b { state = closed; failure_count = 0; opened_at = none; last_now = none }

-- the handler of an exception of the operation
unfoldable pub failed : BreakerState → ℕ → CircuitBreaker → CircuitBreaker
failed half_open now b = trip now b
failed _ now b =
    if leb b.threshold (b.failure_count + 1)
    then trip now b
    else record b { failure_count = b.failure_count + 1 }

abbrev pub decreases : Option ℕ → ℕ → Bool
decreases none now = false
decreases (some last) now = ltb now last

module _ {ℓ} {A : Type ℓ} where
  -- the `try` statement, in the state the breaker has by then
  unfoldable pub attempt : Option A → BreakerState → ℕ → CircuitBreaker → Call A × CircuitBreaker
  attempt (some result) state now b = (returned result, restored b)
  attempt none state now b = (operation_raised, failed state now (record b { state = state }))

  unfoldable pub gate :
      Option A → BreakerState → Option ℕ → ℕ → CircuitBreaker → Call A × CircuitBreaker
  gate operation opened none now b = (assertion_failed, b)
  gate operation opened (some opened_at) now b =
      if ltb now (opened_at + b.recovery_timeout)
      then (circuit_open, b)
      else attempt operation half_open now b
  gate operation state _ now b = attempt operation state now b

  unfoldable pub call : Option A → ℕ → CircuitBreaker → Call A × CircuitBreaker
  call operation now b =
      if decreases b.last_now now
      then (timestamps_decrease, b)
      else gate operation b.state b.opened_at now (record b { last_now = some now })
