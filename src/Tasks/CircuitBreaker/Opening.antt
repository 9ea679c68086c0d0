-- ===== src/Tasks/CircuitBreaker/Opening.antt =====
-- The breaker's invariant, what an open breaker does, and when a closed one opens.
use codejudge_ai.Base.{
  ℕ, ◌+◌, ◌≤◌, ◌<◌, ◌≡◌, ◌≢◌, refl, ap, ◌∙◌, arith, Bool, true, false, Option, none, some, List, [],
  ◌∷◌, length, is_some, if◌then◌else◌, ltb, leb,
}
use codejudge_ai.Base.Errors.{ok}
use codejudge_ai.Tasks.CircuitBreaker.{
  BreakerState, closed, opened, half_open, CircuitBreaker, returned, operation_raised, circuit_open,
  timestamps_decrease, assertion_failed, init, reset, trip, restored, failed, decreases, attempt,
  gate, call,
}

abbrev pub is_open : BreakerState → Bool
is_open opened = true
is_open _ = false

abbrev pub is_half_open : BreakerState → Bool
is_half_open half_open = true
is_half_open _ = false

-- Between calls the breaker is closed, with fewer failures than its threshold, or open since a
-- known time.
pub record IsValid (b : CircuitBreaker) : Type 0 where
  pub positive : 0 < b.threshold
  pub timed : 0 < b.recovery_timeout
  pub counted : b.failure_count < b.threshold
  pub since : is_some b.opened_at ≡ is_open b.state
  pub settled : is_half_open b.state ≡ false

init-IsValid : (t r : ℕ) {b : CircuitBreaker} → init t r ≡ ok b → IsValid b
unfolding init
init-IsValid t r h = ground arith

-- Every call and a reset keep a valid breaker valid, the assertion of a valid breaker never fails,
-- and a call that is refused for its timestamp changes nothing.
pub call-IsValid {ℓ} :
    {A : Type ℓ} (operation : Option A) (now : ℕ) (b : CircuitBreaker)
    → IsValid b
    → IsValid (call operation now b).1
      × ((call operation now b).0 ≢ assertion_failed)
      × IsValid (reset b)
      × ((call operation now b).0 ≡ timestamps_decrease → (call operation now b).1 ≡ b)
unfolding call gate attempt failed reset
call-IsValid operation now b v = ground arith

-- At times that do not decrease, an open breaker refuses calls until its recovery timeout has
-- passed, whatever the operation would do; then success closes it and forgets the failures, and
-- failure opens it again from that moment.
pub open-call {ℓ} :
    {A : Type ℓ} (operation : Option A) (now since : ℕ) (b : CircuitBreaker)
    → b.state ≡ opened
    → b.opened_at ≡ some since
    → decreases b.last_now now ≡ false
    → call operation now b ≡ (
        if ltb now (since + b.recovery_timeout)
        then (circuit_open, record b { last_now = some now })
        else elim operation [
          | some result ↦ (returned result, restored (record b { last_now = some now }))
          | none ↦ (operation_raised, trip now (record b { last_now = some now }))
        ])
unfolding call gate attempt failed
open-call none now since b e f g = rw (g, e, f) refl
open-call (some result) now since b e f g = rw (g, e, f) refl

-- calls whose operation raises, at the given times
unfoldable pub failing_calls : List ℕ → CircuitBreaker → CircuitBreaker
failing_calls [] b = b
failing_calls (now ∷ times) b = failing_calls times (call {A = ℕ} none now b).1

-- the times do not decrease, from the last call on
abbrev pub Nondecreasing : Option ℕ → List ℕ → Type 0
Nondecreasing last [] = Unit {0}
Nondecreasing last (now ∷ times) = (decreases last now ≡ false) × Nondecreasing (some now) times

-- the state after a run of failures of a closed breaker
abbrev pub opens_at : ℕ → CircuitBreaker → BreakerState
opens_at failures b = if ltb (b.failure_count + failures) b.threshold then closed else opened

-- one failure of a closed breaker
closed-call :
    (now : ℕ) (b : CircuitBreaker)
    → b.state ≡ closed
    → decreases b.last_now now ≡ false
    → (call {A = ℕ} none now b).1 ≡ (
        if leb b.threshold (b.failure_count + 1)
        then trip now (record b { last_now = some now })
        else record b { last_now = some now; failure_count = b.failure_count + 1 })
unfolding call gate attempt failed
closed-call now b e d = ground arith

counts_failure :
    (b : CircuitBreaker) {last : Option ℕ}
    → IsValid b
    → b.failure_count + 1 < b.threshold
    → IsValid (record b { last_now = last; failure_count = b.failure_count + 1 })
counts_failure b v h = record {
  positive = v.positive;
  timed = v.timed;
  counted = h;
  since = v.since;
  settled = v.settled;
}

-- As many consecutive failures as are missing to the threshold open a closed valid breaker, at
-- times that do not decrease, and no fewer do.
pub failing_calls-opens :
    (times : List ℕ) (b : CircuitBreaker)
    → IsValid b
    → b.state ≡ closed
    → Nondecreasing b.last_now times
    → b.failure_count + length times ≤ b.threshold
    → (failing_calls times b).state ≡ opens_at (length times) b
unfolding failing_calls
failing_calls-opens [] b v e d h = ground (arith, v.counted)
failing_calls-opens (now ∷ []) b v e d h = ground (arith, closed-call now b)
failing_calls-opens (now ∷ later ∷ times) b v e d h =
    let once : (call {A = ℕ} none now b).1
        ≡ record b { last_now = some now; failure_count = b.failure_count + 1 } =
      ground (arith, closed-call now b) in
    ap (λ c. (failing_calls (later ∷ times) c).state) once
    ∙ failing_calls-opens (later ∷ times)
        (record b { last_now = some now; failure_count = b.failure_count + 1 })
        (counts_failure b v (omega arith)) e d.1 (omega (arith, h))
    ∙ ap (λ n. if ltb n b.threshold then closed else opened) (omega arith)
