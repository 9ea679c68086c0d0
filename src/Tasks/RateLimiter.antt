-- ===== src/Tasks/RateLimiter.antt =====
-- app/tasks/definitions/rate_limiter/reference/solution.py. The two dictionaries are association
-- lists, and times are natural numbers: `events[0] <= now - window` is events[0] + window <= now.
pub mod Window
use codejudge_ai.Base.{
  ℕ, ◌+◌, Bool, true, false, String, Option, none, some, List, [], ◌∷◌, ◌++◌, length, ltb, leb,
  ◌==◌, str_eq, if◌then◌else◌,
}
use codejudge_ai.Base.Errors.{Result, ok, raise, value_error}

pub record SlidingWindowRateLimiter : Type 0 where
  pub limit : ℕ
  pub window : ℕ
  pub events : List (String × List ℕ)
  pub last_call : List (String × ℕ)

unfoldable pub init : ℕ → ℕ → Result SlidingWindowRateLimiter
init limit window =
    if limit == 0
    then raise value_error
    else if window == 0
    then raise value_error
    else ok (record { limit = limit; window = window; events = []; last_call = [] })

module _ {ℓ} {V : Type ℓ} where
  unfoldable pub lookup : String → List (String × V) → Option V
  lookup key [] = none
  lookup key ((k, v) ∷ rest) = if str_eq k key then some v else lookup key rest

  unfoldable pub store : String → V → List (String × V) → List (String × V)
  store key v [] = (key, v) ∷ []
  store key v ((k, w) ∷ rest) = if str_eq k key then (key, v) ∷ rest else (k, w) ∷ store key v rest

-- `while events and events[0] <= boundary: events.popleft()`
unfoldable pub drop_expired : ℕ → ℕ → List ℕ → List ℕ
drop_expired window now [] = []
drop_expired window now (t ∷ events) =
    let rest = drop_expired window now events in if leb (t + window) now then rest else t ∷ events

-- the deque of one key
unfoldable pub admit : ℕ → ℕ → List ℕ → ℕ → Bool × List ℕ
admit limit window events now =
    let live = drop_expired window now events in
    if leb limit (length live) then (false, live) else (true, live ++ now ∷ [])

abbrev pub decreases : Option ℕ → ℕ → Bool
decreases none now = false
decreases (some previous) now = ltb now previous

-- `self._events[key]` of the defaultdict
abbrev pub or_empty : Option (List ℕ) → List ℕ
or_empty none = []
or_empty (some events) = events

unfoldable pub allow :
    String → ℕ → SlidingWindowRateLimiter → Result Bool × SlidingWindowRateLimiter
allow key now l =
    if decreases (lookup key l.last_call) now
    then (raise value_error, l)
    else let answer = admit l.limit l.window (or_empty (lookup key l.events)) now in
      (
        ok answer.0,
        record l { events = store key answer.1 l.events; last_call = store key now l.last_call },
      )
