-- ===== src/Decorators/Examples.antt =====
-- Runs of the policies that `resilient` makes.
use relprim.Prelude.{◌*◌, ◌≡◌, refl, none, some, [], ◌∷◌}
use relprim.Prelude.Int.{pos, ◌+ℤ◌}
use relprim.Values.{ticks_per_second, int, scalar, text}
use relprim.Errors.{ExceptionType, value_error}
use relprim.Outcome.{returned, raised}
use relprim.Checks.{check_seconds, check_exception_types, check_int, exception_class, tuple_of}
use relprim.Retry.{RetryPolicy}
use relprim.Decorators.{
  default_backoff, retry_policy_from, timeout_object, timeout_policy_from, rate_limit_policy_from,
}

both_refused :
    (p : RetryPolicy)
    → retry_policy_from (some p) (some (scalar (int (pos 2)))) none
      ≡ raised (value_error (text "retry and retries cannot be used together."))
unfolding retry_policy_from
both_refused p = refl

two_retries :
    retry_policy_from none
      (some (scalar (int (pos 2))))
      (some (tuple_of (exception_class ExceptionType.timeout_error ∷ [])))
    ≡ returned (
        some (record {
          max_attempts = 3;
          backoff = default_backoff;
          retry_on = ExceptionType.timeout_error ∷ [];
        }))
unfolding retry_policy_from check_int check_exception_types ◌+ℤ◌
two_retries = refl

no_retries : retry_policy_from none (some (scalar (int (pos 0)))) none ≡ returned none
unfolding retry_policy_from check_int check_exception_types
no_retries = refl

two_seconds :
    timeout_policy_from (timeout_object (scalar (int (pos 2))))
    ≡ returned (some (record { seconds = 2 * ticks_per_second }))
unfolding timeout_policy_from check_seconds
two_seconds = refl

orphan_wait :
    rate_limit_policy_from none none none (some (scalar (int (pos 0))))
    ≡ raised (value_error (text "retry_after and max_rate_limit_wait require rate_limit_on."))
unfolding rate_limit_policy_from
orphan_wait = refl
