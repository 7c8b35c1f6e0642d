-- ===== src/Decorators/Resolved.antt =====
-- What the arguments of `resilient` stand for.
use relprim.Prelude.{
  ℕ, zero, suc, ◌+◌, ◌≡◌, refl, true, false, Option, none, some, List, arith, ◌==◌, if◌then◌else◌,
}
use relprim.Prelude.Int.{pos, ◌+ℤ◌, ltb_ℤ, leb_ℤ}
use relprim.Values.{Duration, finite, int, float, PyObject, scalar}
use relprim.Errors.{ExceptionType}
use relprim.Outcome.{returned}
use relprim.Checks.{check_seconds, check_exception_types, check_int, TypesObject}
use relprim.Retry.{RetryPolicy}
use relprim.Retry as Retries
use relprim.Timeout.{TimeoutPolicy}
use relprim.Timeout as Timeouts
use relprim.RateLimit.{Extractor}
use relprim.RateLimit as RateLimits
use relprim.Checks.Accepted.{check_seconds_exact, numeric}
use relprim.Decorators.{
  default_backoff, resolved_retry_on, retries_policy, retry_policy_from, timeout_object,
  timeout_policy_from, is_number, rate_limit_policy_from, resolved_wait,
}

no_negative : (n : ℕ) → ltb_ℤ (pos n) (pos 0) ≡ false
no_negative n = ground arith

attempts_follow : (n : ℕ) → leb_ℤ (pos (suc n)) (pos 0) ≡ false
attempts_follow n = ground arith

one_more : (n : ℕ) → pos (suc n) +ℤ pos 1 ≡ pos (suc n + 1)
unfolding ◌+ℤ◌
one_more n = ground arith

one_at_least : (n : ℕ) → ltb_ℤ (pos (suc n + 1)) (pos 1) ≡ false
one_at_least n = ground arith

pub nonzero : (n : ℕ) → (suc n == 0) ≡ false
nonzero n = ground arith

-- A number n of retries stands for n + 1 attempts with the default backoff, on the exceptions that are
-- given, or on every Exception; and 0 for no policy at all.
pub retry_policy_from_lem :
    (n : ℕ) (retry_on : Option TypesObject) (types : List ExceptionType)
    → check_exception_types "retry_on" (resolved_retry_on retry_on) ≡ returned types
    → retry_policy_from none (some (scalar (int (pos n)))) retry_on
      ≡ returned (
          if n == 0
          then none
          else some (record { max_attempts = n + 1; backoff = default_backoff; retry_on = types }))
unfolding retry_policy_from retries_policy Retries.new_policy check_int
retry_policy_from_lem zero retry_on types h = rw h refl
retry_policy_from_lem (suc n) retry_on types h =
    rw (no_negative (suc n), attempts_follow n, h, one_more n, one_at_least n, nonzero n) refl

number_accepted : (o : PyObject) (d : Duration) → numeric o ≡ some (pos d) → is_number o ≡ true
number_accepted (scalar (int n)) d h = refl
number_accepted (scalar (float x)) d h = refl
number_accepted o d h = ground arith

-- A timeout that check_seconds accepts stands for a policy of just those seconds: the second check, of
-- TimeoutPolicy, never fails.
pub timeout_policy_from_lem :
    (o : PyObject) (d : Duration)
    → check_seconds "timeout" false o ≡ returned d
    → timeout_policy_from (timeout_object o) ≡ returned (some (record { seconds = d }))
unfolding timeout_policy_from Timeouts.new_policy
timeout_policy_from_lem o d h =
    let accepted = (check_seconds_exact "timeout" false o d).0 h in
    rw
      (
        number_accepted o d accepted.0,
        h,
        (check_seconds_exact "seconds" false (scalar (float (finite (pos d)))) d).1
            (refl, accepted.1),
      )
      refl

-- Types that check_exception_types accepts and a wait that check_seconds accepts stand for a policy
-- of just those: the second check of the wait, under the name max_wait_seconds, never fails.
pub rate_limit_policy_from_lem :
    (objects : TypesObject) (types : List ExceptionType) (retry_after : Option Extractor)
    (wait : PyObject) (d : Duration)
    → check_exception_types "rate_limit_on" objects ≡ returned types
    → check_seconds "max_rate_limit_wait" true wait ≡ returned d
    → rate_limit_policy_from none (some objects) retry_after (some wait)
      ≡ returned
          (some (record { rate_limit_on = types; retry_after = retry_after; max_wait_seconds = d }))
unfolding rate_limit_policy_from resolved_wait RateLimits.new_policy
rate_limit_policy_from_lem objects types retry_after wait d ht hw =
    rw
      (
        hw,
        ht,
        (check_seconds_exact "max_wait_seconds" true wait d).1
            ((check_seconds_exact "max_rate_limit_wait" true wait d).0 hw),
      )
      refl
