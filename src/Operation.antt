-- ===== src/Operation.antt =====
-- src/relprim/operation.py and src/relprim/result.py: the operation that composes the policies.
pub mod PlanMetadata
pub mod Plan
pub mod Attempt
pub mod Progress
pub mod Failure
pub mod Fallbacks
pub mod Run
pub mod Idempotent
pub mod Reported
use relprim.Prelude.{ℕ, String, Option, none, some, if◌then◌else◌}
use relprim.Prelude.Text.{is_blank}
use relprim.Values.{Seconds, Datetime, text}
use relprim.Report.{ExecutionReport}
use relprim.Errors.{value_error}
use relprim.Outcome.{Outcome, returned, raised, Action}
use relprim.CircuitBreaker.{CircuitBreaker, Shared}
use relprim.Retry.{RetryPolicy, Environment}
use relprim.RateLimit.{RateLimitPolicy}
use relprim.Fallback.{FallbackChain}
use relprim.Validation.{ValidationPolicy}
use relprim.Timeout.{TimeoutPolicy, AsyncioTimeout}
use relprim.Events.{EventEmitter}

pub record OperationResult (R : Type 0) : Type 0 where
  pub value : R
  pub report : ExecutionReport

-- What an operation takes from outside: the clocks of the report, asyncio.timeout, the sleeper of the
-- retry policy, and random draws.
pub record Host (W R : Type 0) : Type 0 where
  pub utc_now : W → Datetime × W
  pub perf_counter : W → Seconds × W
  pub asyncio_timeout : AsyncioTimeout W R
  pub environment : Environment W

-- The state W holds the breaker, the time of its clock, and all that callables and sinks change.
pub record AsyncOperation (E R : Type 0) : Type 0 where
  pub name : String
  pub operation : Action (Shared E) R
  pub retry_policy : Option RetryPolicy
  pub timeout_policy : Option TimeoutPolicy
  pub fallback_chain : Option (FallbackChain (Shared E) R)
  pub circuit_breaker : Option CircuitBreaker
  pub validation_policy : Option (ValidationPolicy R)
  pub event_emitter : Option (EventEmitter (Shared E))
  pub rate_limit_policy : Option RateLimitPolicy

module _ {E R : Type 0} where
  -- `async_operation(...)`: `AsyncOperation(...)` with `__post_init__`.
  unfoldable pub async_operation : String → Action (Shared E) R → Outcome (AsyncOperation E R)
  async_operation name operation =
      if is_blank name
      then raised (value_error (text "name must not be empty."))
      else returned (record {
        name = name;
        operation = operation;
        retry_policy = none;
        timeout_policy = none;
        fallback_chain = none;
        circuit_breaker = none;
        validation_policy = none;
        event_emitter = none;
        rate_limit_policy = none;
      })

  unfoldable pub with_retry : RetryPolicy → AsyncOperation E R → AsyncOperation E R
  with_retry policy op = record op { retry_policy = some policy }

  unfoldable pub with_timeout : TimeoutPolicy → AsyncOperation E R → AsyncOperation E R
  with_timeout policy op = record op { timeout_policy = some policy }

  unfoldable pub with_fallbacks :
      FallbackChain (Shared E) R → AsyncOperation E R → AsyncOperation E R
  with_fallbacks chain op = record op { fallback_chain = some chain }

  unfoldable pub with_circuit_breaker : CircuitBreaker → AsyncOperation E R → AsyncOperation E R
  with_circuit_breaker breaker op = record op { circuit_breaker = some breaker }

  unfoldable pub with_validation : ValidationPolicy R → AsyncOperation E R → AsyncOperation E R
  with_validation policy op = record op { validation_policy = some policy }

  unfoldable pub with_events : EventEmitter (Shared E) → AsyncOperation E R → AsyncOperation E R
  with_events emitter op = record op { event_emitter = some emitter }

  unfoldable pub with_rate_limit : RateLimitPolicy → AsyncOperation E R → AsyncOperation E R
  with_rate_limit policy op = record op { rate_limit_policy = some policy }

  -- `retry_policy.max_attempts if retry_policy is not None else 1`
  unfoldable pub max_attempts : AsyncOperation E R → ℕ
  max_attempts op = elim op.retry_policy [ some p ↦ p.max_attempts | none ↦ 1 ]
