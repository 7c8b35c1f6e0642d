-- ===== src/Decorators.antt =====
-- src/relprim/decorators.py: the policies that `resilient` makes of its arguments.
pub mod Resolved
pub mod Resilient
mod Examples
use relprim.Prelude.{◌*◌, Bool, true, false, not, Option, none, some, [], ◌∷◌, if◌then◌else◌}
use relprim.Prelude.Int.{ℤ, pos, ◌+ℤ◌, ltb_ℤ, leb_ℤ}
use relprim.Values.{ticks_per_second, finite, int, float, PyObject, scalar, text}
use relprim.Errors.{ExceptionType, value_error, type_error}
use relprim.Outcome.{Outcome, returned, raised, bind_outcome}
use relprim.Checks.{
  check_seconds, check_exception_types, check_int, exception_class, TypesObject, tuple_of,
}
use relprim.Retry.{RetryPolicy, ExponentialBackoff}
use relprim.Retry as Retries
use relprim.Timeout.{TimeoutPolicy}
use relprim.Timeout as Timeouts
use relprim.RateLimit.{RateLimitPolicy, Extractor}
use relprim.RateLimit as RateLimits

-- `ExponentialBackoff()`
abbrev pub default_backoff : ExponentialBackoff
default_backoff = record {
  base_delay_seconds = 100000;
  max_delay_seconds = 10000000;
  multiplier = 2000000;
  jitter = true;
  exact = false;
}

-- `(Exception,) if retry_on is None else retry_on`
abbrev pub resolved_retry_on : Option TypesObject → TypesObject
resolved_retry_on none = tuple_of (exception_class ExceptionType.exception ∷ [])
resolved_retry_on (some types) = types

-- From `retries < 0` on, for an int, with retry_on resolved. After that test, at most 0 is `== 0`.
unfoldable retries_policy : TypesObject → ℤ → Outcome (Option RetryPolicy)
unfolding Retries.new_policy
retries_policy types n =
    if ltb_ℤ n (pos 0)
    then raised (value_error (text "retries must be greater than or equal to 0."))
    else bind_outcome (check_exception_types "retry_on" types) λ _.
      if leb_ℤ n (pos 0)
      then returned none
      else bind_outcome (Retries.new_policy (scalar (int (n +ℤ pos 1))) default_backoff types)
          λ policy. returned (some policy)

-- `_retry_policy_from`
unfoldable pub retry_policy_from :
    Option RetryPolicy → Option PyObject → Option TypesObject → Outcome (Option RetryPolicy)
unfolding retries_policy
retry_policy_from (some retry) (some retries) retry_on =
    raised (value_error (text "retry and retries cannot be used together."))
retry_policy_from (some retry) none (some retry_on) =
    raised (value_error (text "retry_on cannot be combined with retry; use RetryPolicy.retry_on."))
retry_policy_from (some retry) none none = returned (some retry)
retry_policy_from none none (some retry_on) =
    raised (value_error (text "retry_on requires retries."))
retry_policy_from none none none = returned none
retry_policy_from none (some retries) retry_on =
    bind_outcome (check_int "retries" retries) (retries_policy (resolved_retry_on retry_on))

-- The argument `timeout`.
pub data TimeoutConfig : Type 0 where
  no_timeout : TimeoutConfig
  timeout_policy : TimeoutPolicy → TimeoutConfig
  timeout_object : PyObject → TimeoutConfig

-- isinstance(timeout, int | float), and no bool.
abbrev pub is_number : PyObject → Bool
is_number (scalar (int n)) = true
is_number (scalar (float x)) = true
is_number _ = false

-- `_timeout_policy_from`
unfoldable pub timeout_policy_from : TimeoutConfig → Outcome (Option TimeoutPolicy)
unfolding Timeouts.new_policy
timeout_policy_from no_timeout = returned none
timeout_policy_from (timeout_policy policy) = returned (some policy)
timeout_policy_from (timeout_object timeout) =
    if not (is_number timeout)
    then raised (type_error (text "timeout must be a TimeoutPolicy, int, float or None."))
    else bind_outcome (check_seconds "timeout" false timeout) λ seconds.
      bind_outcome (Timeouts.new_policy (scalar (float (finite (pos seconds)))))
        λ policy. returned (some policy)

-- `if max_rate_limit_wait is not None: check_seconds(...)`, and the value or 60.0.
unfoldable resolved_wait : Option PyObject → Outcome PyObject
resolved_wait none = returned (scalar (float (finite (pos (60 * ticks_per_second)))))
resolved_wait (some wait) =
    bind_outcome (check_seconds "max_rate_limit_wait" true wait) λ _. returned wait

-- `_rate_limit_policy_from`
unfoldable pub rate_limit_policy_from :
    Option RateLimitPolicy
    → Option TypesObject
    → Option Extractor
    → Option PyObject
    → Outcome (Option RateLimitPolicy)
unfolding resolved_wait RateLimits.new_policy
rate_limit_policy_from (some policy) none none none = returned (some policy)
rate_limit_policy_from (some policy) _ _ _ = raised (
    value_error (
      text "rate_limit cannot be combined with rate_limit_on, retry_after or max_rate_limit_wait."))
rate_limit_policy_from none none none none = returned none
rate_limit_policy_from none none _ _ =
    raised (value_error (text "retry_after and max_rate_limit_wait require rate_limit_on."))
rate_limit_policy_from none (some types) retry_after wait =
    bind_outcome (resolved_wait wait) λ max_wait.
      bind_outcome (RateLimits.new_policy types retry_after max_wait)
        λ policy. returned (some policy)
