-- ===== src/Operation/Attempt.antt =====
-- One attempt of src/relprim/operation.py: breaker, timeout, callable and validators; the events; the
-- validated fallback chain; and the sleep before a retry.
pub mod Emits
use relprim.Prelude.{
  ℕ, ◌+◌, String, Bool, true, false, not, Option, none, some, List, [], ◌∷◌, if◌then◌else◌, is_some,
}
use relprim.Prelude.Int.{pos}
use relprim.Values.{Duration, finite, null, bool, float, str, Metadata, text}
use relprim.Errors.{Exception, runtime_error, validation_failed_error}
use relprim.Outcome.{
  Outcome, returned, raised, bind_outcome, Action, pure, raise, lift, ◌>>=◌, ◌>>◌,
}
use relprim.Checks.{unchecked}
use relprim.Timeout
use relprim.CircuitBreaker.{Shared, run_async}
use relprim.Fallback.{FallbackCandidate, FallbackChain, new_candidate, new_chain}
use relprim.Validation.{validate, validation_error}
use relprim.Events.{EventEmitter, EventType, emit}
use relprim.Operation.{AsyncOperation, Host}
use relprim.Operation.PlanMetadata.{
  RetryPlan, will_retry, no_validation_metadata, validation_success_metadata, source_value,
  optional_seconds, count,
}

-- A reading of a clock, which never fails.
abbrev pub read : {W T : Type 0} → (W → T × W) → Action W T
read clock w = let (t, w') = clock w in (returned t, w')

module _ {E R : Type 0} (op : AsyncOperation E R) where
  emit_through :
      Option (EventEmitter (Shared E)) → EventType → Metadata → Action (Shared E) (Unit {0})
  unfolding emit
  emit_through none event_type payload = pure tt
  emit_through (some emitter) event_type payload =
      emit emitter event_type op.name (unchecked payload) >> pure tt

  unfoldable pub emit_event : EventType → Metadata → Action (Shared E) (Unit {0})
  unfolding emit_through
  emit_event event_type payload = emit_through op.event_emitter event_type payload

  -- An event under a condition: there is a payload where the condition holds.
  unfoldable pub emit_some : EventType → Option Metadata → Action (Shared E) (Unit {0})
  unfolding emit_event
  emit_some event_type none = pure tt
  emit_some event_type (some payload) = emit_event event_type payload

  unfoldable pub validate_value : R → Outcome Metadata
  unfolding validate validation_error no_validation_metadata validation_success_metadata
  validate_value value = elim op.validation_policy [
    | none ↦ returned no_validation_metadata
    | some policy ↦ bind_outcome (validate policy value) λ result.
        if not result.valid
        then raised (validation_error result)
        else returned (validation_success_metadata result)
  ]

  -- The tail of an attempt and of a candidate: the value with its validation.
  validated_value : R → Action (Shared E) (R × Metadata)
  unfolding validate_value
  validated_value value = lift (validate_value value) >>= λ metadata. pure (value, metadata)

  module _ (host : Host (Shared E) R) where
    unfoldable pub run_single_attempt_without_circuit_breaker : Action (Shared E) (R × Metadata)
    unfolding validated_value Timeout.run_async
    run_single_attempt_without_circuit_breaker = elim op.timeout_policy [
      | none ↦ op.operation >>= validated_value
      | some policy ↦ Timeout.run_async policy host.asyncio_timeout op.operation >>= validated_value
    ]

    unfoldable pub run_single_attempt : Action (Shared E) (R × Metadata)
    unfolding run_single_attempt_without_circuit_breaker run_async
    run_single_attempt = elim op.circuit_breaker [
      | none ↦ run_single_attempt_without_circuit_breaker
      | some breaker ↦ run_async breaker run_single_attempt_without_circuit_breaker
    ]

    retry_payload : ℕ → RetryPlan → Duration → Metadata
    retry_payload attempt_number plan delay =
        ("attempt_number", count attempt_number)
        ∷ ("next_attempt_number", count (attempt_number + 1))
        ∷ ("delay_seconds", float (finite (pos delay)))
        ∷ (
          "delay_source",
          elim plan.delay_source [ some source ↦ str (source_value source) | none ↦ null ],
        )
        ∷ ("rate_limited", bool plan.rate_limited)
        ∷ ("retry_after_seconds", optional_seconds plan.retry_after_seconds)
        ∷ []

    -- By whether there is a retry policy, whether the plan retries, and its delay.
    sleep_if : Bool → Bool → Option Duration → ℕ → RetryPlan → Action (Shared E) Duration
    unfolding emit_event retry_payload
    sleep_if true true (some delay) attempt_number plan =
        emit_event EventType.retry_scheduled (retry_payload attempt_number plan delay)
        >> (host.environment.sleep delay >> pure delay)
    sleep_if false _ _ attempt_number plan =
        raise (runtime_error (text "Retry sleep requested without retry policy."))
    sleep_if true _ _ attempt_number plan =
        raise (runtime_error (text "Retry sleep requested without a retryable plan."))

    -- `policy.async_sleeper` is the host's.
    unfoldable pub sleep_before_retry : ℕ → RetryPlan → Action (Shared E) Duration
    unfolding sleep_if will_retry
    sleep_before_retry attempt_number plan =
        sleep_if (is_some op.retry_policy) (will_retry plan) plan.delay_seconds attempt_number plan

  -- `validated(candidate.operation)`
  run_candidate : Action (Shared E) R → Action (Shared E) (R × Metadata)
  unfolding validated_value
  run_candidate operation = operation >>= validated_value

  validated_candidates :
      List (FallbackCandidate (Shared E) R)
      → Outcome (List (FallbackCandidate (Shared E) (R × Metadata)))
  unfolding new_candidate run_candidate
  validated_candidates [] = returned []
  validated_candidates (c ∷ cs) =
      bind_outcome (new_candidate c.name (run_candidate c.operation))
        λ validated. bind_outcome (validated_candidates cs) λ rest. returned (validated ∷ rest)

  unfoldable pub validated_fallback_chain :
      FallbackChain (Shared E) R → Outcome (FallbackChain (Shared E) (R × Metadata))
  unfolding validated_candidates new_chain
  validated_fallback_chain chain =
      bind_outcome (validated_candidates chain.candidates) λ cs. new_chain cs chain.policy

  -- `VALIDATION_FAILED` for a failure of a candidate, if it is a ValidationFailedError.
  candidate_payload : ℕ → String → Exception → Option Metadata
  candidate_payload attempt_number candidate (validation_failed_error m name reason) = some (
      ("attempt_number", count attempt_number)
      ∷ ("validator_name", str name)
      ∷ ("reason", str reason)
      ∷ ("fallback_used", bool true)
      ∷ ("fallback_candidate_name", str candidate)
      ∷ [])
  candidate_payload attempt_number candidate _ = none

  -- The failures, zipped with the candidates.
  unfoldable pub emit_fallback_validation_failures :
      ℕ → List (FallbackCandidate (Shared E) R) → List Exception → Action (Shared E) (Unit {0})
  unfolding emit_some candidate_payload
  emit_fallback_validation_failures attempt_number (c ∷ cs) (e ∷ es) =
      emit_some EventType.validation_failed (candidate_payload attempt_number c.name e)
      >> emit_fallback_validation_failures attempt_number cs es
  emit_fallback_validation_failures attempt_number _ _ = pure tt
