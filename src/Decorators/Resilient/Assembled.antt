-- ===== src/Decorators/Resilient/Assembled.antt =====
-- The builder methods that the decorator of src/relprim/decorators.py calls, all together.
use relprim.Prelude.{String, ◌≡◌, refl, false, Option, none, some, arith}
use relprim.Prelude.Text.{is_blank}
use relprim.Outcome.{returned}
use relprim.Retry.{RetryPolicy}
use relprim.Timeout.{TimeoutPolicy}
use relprim.RateLimit.{RateLimitPolicy}
use relprim.Fallback.{FallbackChain}
use relprim.Validation.{ValidationPolicy}
use relprim.Events.{EventEmitter}
use relprim.CircuitBreaker.{CircuitBreaker, Shared}
use relprim.Idempotency.{IdempotencyPolicy}
use relprim.Operation.{
  AsyncOperation, async_operation, with_retry, with_timeout, with_fallbacks, with_circuit_breaker,
  with_validation, with_events, with_rate_limit,
}
use relprim.Operation.Idempotent.{IdempotentOperation, with_idempotency}
use relprim.Decorators.Resilient.{Callable, Arguments, Policies, configured, if_given, on_operation}

module _ {E R : Type 0} where
  -- An operation as `async_operation` makes it.
  abbrev pub bare : String → Callable E R → AsyncOperation E R
  bare name f = record {
    name = name;
    operation = f.call;
    retry_policy = none;
    timeout_policy = none;
    fallback_chain = none;
    circuit_breaker = none;
    validation_policy = none;
    event_emitter = none;
    rate_limit_policy = none;
  }

  pub async_operation-bare :
      (name : String) (f : Callable E R) (op : AsyncOperation E R)
      → async_operation name f.call ≡ returned op
      → (is_blank name ≡ false) × (op ≡ bare name f)
  unfolding async_operation
  async_operation-bare name f op h = ground arith

module _ {A E R : Type 0} where
  -- The operation with every part in its place.
  abbrev pub assembled :
      Arguments A E R → Policies A E R → String → Callable E R → IdempotentOperation A E R
  assembled a p name f = record {
    operation = record {
      name = name;
      operation = f.call;
      retry_policy = p.retry_policy;
      timeout_policy = p.timeout_policy;
      fallback_chain = p.fallback_chain;
      circuit_breaker = a.circuit_breaker;
      validation_policy = a.validation;
      event_emitter = a.events;
      rate_limit_policy = p.rate_limit_policy;
    };
    idempotency_policy = p.idempotency_policy;
  }

  -- Each builder method fills its own part, which was empty.
  abbrev built : AsyncOperation E R → Option (IdempotencyPolicy A) → IdempotentOperation A E R
  built op policy = record { operation = op; idempotency_policy = policy }

  events_step :
      (x : Option (EventEmitter (Shared E))) (op : AsyncOperation E R)
      → if_given (on_operation with_events) x (built (record op { event_emitter = none }) none)
        ≡ built (record op { event_emitter = x }) none
  unfolding with_events
  events_step none op = refl
  events_step (some x) op = refl

  breaker_step :
      (x : Option CircuitBreaker) (op : AsyncOperation E R)
      → if_given
          (on_operation with_circuit_breaker)
          x
          (built (record op { circuit_breaker = none }) none)
        ≡ built (record op { circuit_breaker = x }) none
  unfolding with_circuit_breaker
  breaker_step none op = refl
  breaker_step (some x) op = refl

  retry_step :
      (x : Option RetryPolicy) (op : AsyncOperation E R)
      → if_given (on_operation with_retry) x (built (record op { retry_policy = none }) none)
        ≡ built (record op { retry_policy = x }) none
  unfolding with_retry
  retry_step none op = refl
  retry_step (some x) op = refl

  timeout_step :
      (x : Option TimeoutPolicy) (op : AsyncOperation E R)
      → if_given (on_operation with_timeout) x (built (record op { timeout_policy = none }) none)
        ≡ built (record op { timeout_policy = x }) none
  unfolding with_timeout
  timeout_step none op = refl
  timeout_step (some x) op = refl

  validation_step :
      (x : Option (ValidationPolicy R)) (op : AsyncOperation E R)
      → if_given
          (on_operation with_validation)
          x
          (built (record op { validation_policy = none }) none)
        ≡ built (record op { validation_policy = x }) none
  unfolding with_validation
  validation_step none op = refl
  validation_step (some x) op = refl

  fallbacks_step :
      (x : Option (FallbackChain (Shared E) R)) (op : AsyncOperation E R)
      → if_given (on_operation with_fallbacks) x (built (record op { fallback_chain = none }) none)
        ≡ built (record op { fallback_chain = x }) none
  unfolding with_fallbacks
  fallbacks_step none op = refl
  fallbacks_step (some x) op = refl

  idempotency_step :
      (x : Option (IdempotencyPolicy A)) (op : AsyncOperation E R)
      → if_given with_idempotency x (built op none) ≡ built op x
  unfolding with_idempotency
  idempotency_step none op = refl
  idempotency_step (some x) op = refl

  rate_limit_step :
      (x : Option RateLimitPolicy) (op : AsyncOperation E R) (policy : Option (IdempotencyPolicy A))
      → if_given
          (on_operation with_rate_limit)
          x
          (built (record op { rate_limit_policy = none }) policy)
        ≡ built (record op { rate_limit_policy = x }) policy
  unfolding with_rate_limit
  rate_limit_step none op policy = refl
  rate_limit_step (some x) op policy = refl

  pub configured-assembled :
      (a : Arguments A E R) (p : Policies A E R) (name : String) (f : Callable E R)
      → configured a p (bare name f) ≡ assembled a p name f
  unfolding configured
  configured-assembled a p name f =
      let op1 = record (bare name f) { event_emitter = a.events } in
      let op2 = record op1 { circuit_breaker = a.circuit_breaker } in
      let op3 = record op2 { retry_policy = p.retry_policy } in
      let op4 = record op3 { timeout_policy = p.timeout_policy } in
      let op5 = record op4 { validation_policy = a.validation } in
      let op6 = record op5 { fallback_chain = p.fallback_chain } in
      rw
        (
          events_step a.events (bare name f),
          breaker_step a.circuit_breaker op1,
          retry_step p.retry_policy op2,
          timeout_step p.timeout_policy op3,
          validation_step a.validation op4,
          fallbacks_step p.fallback_chain op5,
          idempotency_step p.idempotency_policy op6,
        )
        (rate_limit_step p.rate_limit_policy op6 p.idempotency_policy)
