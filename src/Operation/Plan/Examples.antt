-- ===== src/Operation/Plan/Examples.antt =====
-- A plan of src/relprim/operation.py on a concrete failure, and a use of its theorem.
use relprim.Prelude.{ℕ, ◌+◌, ◌≡◌, refl, true, false, none, some, [], ◌∷◌}
use relprim.Prelude.Int.{pos}
use relprim.Values.{int, scalar, text}
use relprim.Errors.{ExceptionType, Exception, is_instance, timeout_error}
use relprim.Outcome.{returned}
use relprim.RateLimit.{RateLimitPolicy, RateLimitDecision}
use relprim.Retry.{RetryPolicy, Environment}
use relprim.Operation.{AsyncOperation}
use relprim.Operation.Plan.{retry_plan_for_exception, rate_limit_decision}
use relprim.Operation.Plan.Planned.{IsSound, allowed, longest, retry_plan_for_exception-IsSound}

abbrev env : Environment ℕ
env = record { sleep = λ d s. (returned tt, s); draw = λ s. (s, s + 1) }

abbrev policy : RetryPolicy
policy = record {
  max_attempts = 3;
  backoff = record {
    base_delay_seconds = 100000;
    max_delay_seconds = 10000000;
    multiplier = 2000000;
    jitter = true;
    exact = false;
  };
  retry_on = ExceptionType.exception ∷ [];
}

abbrev limit : RateLimitPolicy
limit = record {
  rate_limit_on = ExceptionType.timeout_error ∷ [];
  retry_after = some (λ e. returned (scalar (int (pos 2))));
  max_wait_seconds = 1000000;
}

abbrev op : AsyncOperation (Unit {0}) ℕ
op = record {
  name = "load";
  operation = λ w. (returned 7, w);
  retry_policy = some policy;
  timeout_policy = none;
  fallback_chain = none;
  circuit_breaker = none;
  validation_policy = none;
  event_emitter = none;
  rate_limit_policy = some limit;
}

abbrev busy : Exception
busy = timeout_error (text "busy")

-- The provider asks for two seconds, more than the policy waits for.
abbrev two_seconds : RateLimitDecision
two_seconds = record { rate_limited = true; retry_after_seconds = some 2000000 }

busy_is_limited : rate_limit_decision env (some limit) busy ≡ returned two_seconds
unfolding rate_limit_decision is_instance
busy_is_limited = refl

retry_plan_for_exception-IsSound_example :
    IsSound true
      (some 2000000)
      10000000
      (allowed env op busy true true)
      (longest env op true)
      (retry_plan_for_exception env op busy 1 true 0).0
retry_plan_for_exception-IsSound_example =
    retry_plan_for_exception-IsSound env op busy 0 true 0 two_seconds busy_is_limited
