-- ===== src/Jobs/Retry.antt =====
-- app/jobs/retry.py. Delays are whole microseconds, the unit of a `timedelta`; on those the
-- float arithmetic of the source is exact within the range of a double.
use codejudge_ai.Base.{
  ℕ, ◌*◌, ◌^◌, ◌-◌, ◌+◌, arith, ◌≡◌, Bool, true, false, ◌||◌, String, if◌then◌else◌, leb,
}
use codejudge_ai.Base.Errors.{
  Error, Result, ok, raise, value_error, evaluation_integrity, infrastructure,
}
use codejudge_ai.Base.Text.{codes, lower, contains}

pub record FailureDecision : Type 0 where
  pub retryable : Bool
  pub category : String
  pub code : String

unfoldable pub retry_delay_seconds : ℕ → ℕ → Result ℕ
retry_delay_seconds attempt base_delay =
    if leb attempt 0 then raise value_error else ok (base_delay * 3 ^ (attempt - 1))

-- `word in message` after `message.lower()`
unfoldable pub mentions : String → String → Bool
unfolding contains lower
mentions message word = contains (codes word) (lower (codes message))

unfoldable pub infrastructure_code : String → String
unfolding mentions
infrastructure_code message =
    if mentions message "docker" || mentions message "sandbox" || mentions message "image"
    then "sandbox_unavailable"
    else if mentions message "analysis" || mentions message "analyzer"
    then "analysis_unavailable"
    else if mentions message "persistence" || mentions message "database"
    then "persistence_unavailable"
    else "evaluation_infrastructure"

unfoldable pub classify_failure : Error → FailureDecision
unfolding infrastructure_code
classify_failure (evaluation_integrity code) = record {
  retryable = false;
  category = "integrity";
  code = code;
}
classify_failure (infrastructure message) = record {
  retryable = true;
  category = "infrastructure";
  code = infrastructure_code message;
}
classify_failure _ = record { retryable = false; category = "worker"; code = "unexpected_error" }

-- The delay before the attempt that follows attempt n + 1.
pub retry_delay_seconds-suc :
    (n base_delay : ℕ) → retry_delay_seconds (n + 1) base_delay ≡ ok (base_delay * 3 ^ n)
unfolding retry_delay_seconds
retry_delay_seconds-suc n base_delay = let e : n + 1 - 1 ≡ n = omega arith in ground (arith, e)
