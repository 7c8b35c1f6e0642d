-- ===== src/RateLimit.antt =====
-- src/relprim/rate_limit.py. The extractor is code of the caller's: it may return any object, raise,
-- or be interrupted.
pub mod Foreign
pub mod Evaluation
mod Examples
use relprim.Prelude.{Bool, true, false, not, ◌&&◌, Option, none, some, List, if◌then◌else◌, is_some}
use relprim.Prelude.Int.{pos, pos_part, ltb_ℤ}
use relprim.Values.{
  Seconds, Duration, seconds_of_int, finite, null, int, float, PyObject, scalar, text,
}
use relprim.Errors.{
  ExceptionType, Exception, no_cause, caused_by, is_instance, value_error, overflow_error,
  retry_after_extraction_error,
}
use relprim.Outcome.{Outcome, returned, raised, interrupted, bind_outcome}
use relprim.Checks.{int_overflows, check_seconds, check_exception_types, TypesObject}

pub record RateLimitDecision : Type 0 where
  pub rate_limited : Bool
  pub retry_after_seconds : Option Duration

-- `RateLimitDecision(...)` with `__post_init__`.
unfoldable pub new_decision : Bool → Option Duration → Outcome RateLimitDecision
new_decision rate_limited retry_after_seconds =
    if not rate_limited && is_some retry_after_seconds
    then raised
        (value_error (text "non-rate-limited decisions must not include retry_after_seconds."))
    else returned
        (record { rate_limited = rate_limited; retry_after_seconds = retry_after_seconds })

unfoldable pub not_rate_limited : Outcome RateLimitDecision
unfolding new_decision
not_rate_limited = new_decision false none

unfoldable pub rate_limited_with : Option Duration → Outcome RateLimitDecision
unfolding new_decision
rate_limited_with retry_after_seconds = new_decision true retry_after_seconds

abbrev pub Extractor : Type 0
Extractor = Exception → Outcome PyObject

pub record RateLimitPolicy : Type 0 where
  pub rate_limit_on : List ExceptionType
  pub retry_after : Option Extractor
  pub max_wait_seconds : Duration

-- `RateLimitPolicy(...)` with `__post_init__`, which `rate_limit_policy(...)` calls.
unfoldable pub new_policy : TypesObject → Option Extractor → PyObject → Outcome RateLimitPolicy
new_policy types retry_after max_wait =
    bind_outcome (check_exception_types "rate_limit_on" types) λ rate_limit_on.
      bind_outcome (check_seconds "max_wait_seconds" true max_wait) λ max_wait_seconds.
        returned (record {
          rate_limit_on = rate_limit_on;
          retry_after = retry_after;
          max_wait_seconds = max_wait_seconds;
        })

check_delay_sign : Exception → Seconds → Outcome Duration
check_delay_sign error value =
    if ltb_ℤ value (pos 0)
    then raised (
        retry_after_extraction_error
          (text "The retry-after value must be greater than or equal to 0.") error no_cause)
    else returned (pos_part value)

-- `_validate_retry_after`. float(value) raises OverflowError for an int that no float can hold.
unfoldable pub validate_retry_after : Exception → PyObject → Outcome Duration
unfolding check_delay_sign int_overflows seconds_of_int
validate_retry_after error (scalar (int n)) =
    if int_overflows n
    then raised (overflow_error (text "int too large to convert to float"))
    else check_delay_sign error (seconds_of_int n)
validate_retry_after error (scalar (float (finite value))) = check_delay_sign error value
validate_retry_after error (scalar (float _)) =
    raised
      (retry_after_extraction_error (text "The retry-after value must be finite.") error no_cause)
validate_retry_after error _ = raised (
    retry_after_extraction_error
      (text "The retry-after extractor must return an int, float or None.") error no_cause)

-- What `evaluate` makes of the extractor's outcome.
decide_from : Exception → Outcome PyObject → Outcome RateLimitDecision
unfolding validate_retry_after rate_limited_with
decide_from error (raised cause) = raised (
    retry_after_extraction_error (text "The retry-after extractor raised an exception.") error
      (caused_by cause))
decide_from error (interrupted i) = interrupted i
decide_from error (returned (scalar null)) = rate_limited_with none
decide_from error (returned value) =
    bind_outcome (validate_retry_after error value) (λ delay. rate_limited_with (some delay))

unfoldable pub evaluate : RateLimitPolicy → Exception → Outcome RateLimitDecision
unfolding not_rate_limited rate_limited_with decide_from
evaluate p error =
    if is_instance error p.rate_limit_on
    then elim p.retry_after [
      | none ↦ rate_limited_with none
      | some extractor ↦ decide_from error (extractor error)
    ]
    else not_rate_limited
