-- ===== src/Decorators/Resilient.antt =====
-- src/relprim/decorators.py: the rest of the arguments of `resilient`, and the operation it configures.
-- As in the module of operations, a callable stands with the arguments of its call applied.
pub mod Assembled
pub mod Configured
pub mod Shortcuts
mod Examples
use relprim.Prelude.{ℕ, ◌*◌, String, Bool, false, not, Option, none, some, [], ◌∷◌, if◌then◌else◌}
use relprim.Prelude.Int.{pos}
use relprim.Prelude.Text.{is_blank}
use relprim.Values.{ticks_per_second, finite, float, str, PyObject, scalar, text}
use relprim.Report.{retried}
use relprim.Errors.{value_error}
use relprim.Outcome.{Outcome, returned, raised, bind_outcome, Action}
use relprim.Checks.{check_seconds, TypesObject}
use relprim.Retry.{RetryPolicy}
use relprim.Timeout.{TimeoutPolicy}
use relprim.RateLimit.{RateLimitPolicy, Extractor}
use relprim.Fallback.{FallbackChain, from_operations}
use relprim.Validation.{ValidationPolicy}
use relprim.Events.{EventEmitter}
use relprim.CircuitBreaker.{CircuitBreaker, Shared}
use relprim.Idempotency.{IdempotencyPolicy}
use relprim.Idempotency as Idempotencies
use relprim.Idempotency.Execute.{Site}
use relprim.Operation.{
  AsyncOperation, Host, OperationResult, async_operation, with_retry, with_timeout, with_fallbacks,
  with_circuit_breaker, with_validation, with_events, with_rate_limit,
}
use relprim.Operation.Idempotent.{IdempotentOperation, with_idempotency, run}
use relprim.Decorators.{
  TimeoutConfig, retry_policy_from, timeout_policy_from, rate_limit_policy_from,
}

-- An async callable, with what `getattr(operation, "__name__", None)` gives if that is not None, and
-- the name of its class.
pub record Callable (E R : Type 0) : Type 0 where
  pub dunder_name : Option PyObject
  pub class_name : String
  pub call : Action (Shared E) R

abbrev pub class_named : String → Outcome String
class_named class_name =
    if not (is_blank class_name)
    then returned class_name
    else raised (value_error (text "operation name could not be inferred."))

abbrev pub named : Option PyObject → String → Outcome String
named (some (scalar (str name))) class_name =
    if not (is_blank name) then returned name else class_named class_name
named _ class_name = class_named class_name

-- `if idempotency_ttl is not None: check_seconds(...)`, and the value or 3600.0.
unfoldable pub resolved_ttl : Option PyObject → Outcome PyObject
resolved_ttl none = returned (scalar (float (finite (pos (3600 * ticks_per_second)))))
resolved_ttl (some ttl) = bind_outcome (check_seconds "idempotency_ttl" false ttl) λ _. returned ttl

module _ {A : Type 0} where
  -- `_idempotency_policy_from`
  unfoldable pub idempotency_policy_from :
      Option (IdempotencyPolicy A)
      → Option (A → Outcome PyObject)
      → Option ℕ
      → Option PyObject
      → Outcome (Option (IdempotencyPolicy A))
  unfolding resolved_ttl Idempotencies.new_policy
  idempotency_policy_from (some policy) none none none = returned (some policy)
  idempotency_policy_from (some policy) key store ttl = raised (
      value_error (
        text
          "idempotency cannot be combined with idempotency_key, idempotency_store or idempotency_ttl."))
  idempotency_policy_from none none none none = returned none
  idempotency_policy_from none none store ttl =
      raised (value_error (text "idempotency_store and idempotency_ttl require idempotency_key."))
  idempotency_policy_from none (some key) store ttl = bind_outcome (resolved_ttl ttl) λ ttl_seconds.
      bind_outcome (Idempotencies.new_policy key store ttl_seconds) λ policy. returned (some policy)

module _ {E R : Type 0} where
  -- `_operation_name_for`
  unfoldable pub operation_name_for : Callable E R → Outcome String
  operation_name_for operation = named operation.dunder_name operation.class_name

  -- `_fallback_chain_from`
  unfoldable pub fallback_chain_from :
      Option (Callable E R)
      → Option (FallbackChain (Shared E) R)
      → Outcome (Option (FallbackChain (Shared E) R))
  unfolding operation_name_for from_operations
  fallback_chain_from (some fallback) (some fallbacks) =
      raised (value_error (text "fallback and fallbacks cannot be used together."))
  fallback_chain_from none (some fallbacks) = returned (some fallbacks)
  fallback_chain_from none none = returned none
  fallback_chain_from (some fallback) none = bind_outcome (operation_name_for fallback) λ name.
      bind_outcome (from_operations ((name, fallback.call) ∷ []) none)
        λ chain. returned (some chain)

-- The arguments of `resilient`.
pub record Arguments (A E R : Type 0) : Type 0 where
  pub name : Option String
  pub retries : Option PyObject
  pub retry_on : Option TypesObject
  pub retry : Option RetryPolicy
  pub timeout : TimeoutConfig
  pub fallback : Option (Callable E R)
  pub fallbacks : Option (FallbackChain (Shared E) R)
  pub circuit_breaker : Option CircuitBreaker
  pub validation : Option (ValidationPolicy R)
  pub events : Option (EventEmitter (Shared E))
  pub idempotency : Option (IdempotencyPolicy A)
  pub idempotency_key : Option (A → Outcome PyObject)
  pub idempotency_store : Option ℕ
  pub idempotency_ttl : Option PyObject
  pub rate_limit : Option RateLimitPolicy
  pub rate_limit_on : Option TypesObject
  pub retry_after : Option Extractor
  pub max_rate_limit_wait : Option PyObject

-- The policies that `resilient` makes of them.
pub record Policies (A E R : Type 0) : Type 0 where
  pub retry_policy : Option RetryPolicy
  pub timeout_policy : Option TimeoutPolicy
  pub fallback_chain : Option (FallbackChain (Shared E) R)
  pub idempotency_policy : Option (IdempotencyPolicy A)
  pub rate_limit_policy : Option RateLimitPolicy

-- `if policy is not None: configured_operation = ...`
abbrev pub if_given {ℓ κ} : {P : Type ℓ} {O : Type κ} → (P → O → O) → Option P → O → O
if_given configure none op = op
if_given configure (some policy) op = configure policy op

-- `name is not None and not name.strip()`
abbrev pub blank_name : Option String → Bool
blank_name none = false
blank_name (some name) = is_blank name

module _ {A E R : Type 0} where
  -- A builder method that leaves the idempotency policy as it is.
  abbrev pub on_operation {ℓ} :
      {P : Type ℓ}
      → (P → AsyncOperation E R → AsyncOperation E R)
      → P
      → IdempotentOperation A E R
      → IdempotentOperation A E R
  on_operation configure policy op = record op { operation = configure policy op.operation }

  -- The part of `decorator` after `async_operation(...)`.
  unfoldable pub configured :
      Arguments A E R → Policies A E R → AsyncOperation E R → IdempotentOperation A E R
  unfolding with_events with_circuit_breaker with_retry with_timeout with_validation with_fallbacks
      with_idempotency with_rate_limit
  configured arguments policies op =
      let created : IdempotentOperation A E R = record {
        operation = op;
        idempotency_policy = none;
      } in
      let observed = if_given (on_operation with_events) arguments.events created in
      let guarded =
        if_given (on_operation with_circuit_breaker) arguments.circuit_breaker observed in
      let retried = if_given (on_operation with_retry) policies.retry_policy guarded in
      let timed = if_given (on_operation with_timeout) policies.timeout_policy retried in
      let validated = if_given (on_operation with_validation) arguments.validation timed in
      let backed = if_given (on_operation with_fallbacks) policies.fallback_chain validated in
      let keyed = if_given with_idempotency policies.idempotency_policy backed in
      if_given (on_operation with_rate_limit) policies.rate_limit_policy keyed

  -- `decorator`
  unfoldable pub decorate :
      Arguments A E R → Policies A E R → Callable E R → Outcome (IdempotentOperation A E R)
  unfolding operation_name_for async_operation configured
  decorate arguments policies operation =
      bind_outcome
        (elim arguments.name [ some name ↦ returned name | none ↦ operation_name_for operation ])
        λ name.
          bind_outcome (async_operation name operation.call)
            λ op. returned (configured arguments policies op)

  -- The policies, in the order in which they are made.
  unfoldable pub resolve : Arguments A E R → Outcome (Policies A E R)
  unfolding retry_policy_from timeout_policy_from fallback_chain_from idempotency_policy_from
      rate_limit_policy_from
  resolve a = bind_outcome (retry_policy_from a.retry a.retries a.retry_on) λ retry_policy.
      bind_outcome (timeout_policy_from a.timeout) λ timeout_policy.
        bind_outcome (fallback_chain_from a.fallback a.fallbacks) λ fallback_chain.
          bind_outcome
            (idempotency_policy_from a.idempotency a.idempotency_key a.idempotency_store
              a.idempotency_ttl)
            λ idempotency_policy.
              bind_outcome
                (rate_limit_policy_from a.rate_limit a.rate_limit_on a.retry_after
                  a.max_rate_limit_wait)
                λ rate_limit_policy. returned (record {
                  retry_policy = retry_policy;
                  timeout_policy = timeout_policy;
                  fallback_chain = fallback_chain;
                  idempotency_policy = idempotency_policy;
                  rate_limit_policy = rate_limit_policy;
                })

  unfoldable pub resilient :
      Arguments A E R → Outcome (Callable E R → Outcome (IdempotentOperation A E R))
  unfolding resolve decorate
  resilient arguments =
      if blank_name arguments.name
      then raised (value_error (text "name must not be empty."))
      else bind_outcome (resolve arguments) λ policies. returned (decorate arguments policies)

  -- The store of an operation: none stands for the one that its policy has made of its own.
  abbrev pub policy_store : IdempotentOperation A E R → Option ℕ
  policy_store op = elim op.idempotency_policy [ none ↦ none | some policy ↦ policy.store ]

  -- `wrapper`, which awaits `run` of the operation that was configured, with the store of its policy.
  unfoldable pub wrapper :
      ℕ
      → Host (Shared E) R
      → (Option ℕ → Site (OperationResult R) (Shared E))
      → IdempotentOperation A E R
      → A
      → Option ℕ
      → Shared E
      → Option (Outcome (OperationResult R) × Shared E)
  unfolding run
  wrapper rounds host sites configured_operation arguments task s =
      run rounds host (sites (policy_store configured_operation)) configured_operation arguments
        task s
