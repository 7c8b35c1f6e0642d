-- ===== src/Operation/Fallbacks/Succeeded.antt =====
-- What `_run_without_idempotency` of src/relprim/operation.py does when the fallback chain succeeds.
pub mod Reports
use relprim.Prelude.{ℕ, String, Bool, true, false, Option, none, some, [], ◌∷◌, if◌then◌else◌}
use relprim.Prelude.Int.{pos}
use relprim.Values.{Seconds, finite, JsonScalar, null, bool, float, str, scalar, Metadata}
use relprim.Report.{AttemptStatus, ExecutionAttempt}
use relprim.Outcome.{Outcome, Action, lift, ◌>>=◌, ◌>>◌}
use relprim.Checks.{unchecked}
use relprim.Prelude.Dict.{get_item, update}
use relprim.CircuitBreaker.{Shared}
use relprim.Fallback.{FallbackChain, FallbackResult}
use relprim.Report.Build.{new_attempt}
use relprim.Events.{EventType}
use relprim.Operation.{AsyncOperation, Host, OperationResult}
use relprim.Operation.PlanMetadata.{count, fallback_success_metadata}
use relprim.Operation.Attempt.{emit_some, emit_event, emit_fallback_validation_failures}
use relprim.Operation.Progress.{Progress, Started, add_attempt, elapsed_seconds, conclude_success}

-- `validation_metadata["validation_performed"] is True`
unfoldable pub validation_performed : Metadata → Bool
unfolding get_item
validation_performed metadata = elim (get_item "validation_performed" metadata) [
  | some (bool true) ↦ true
  | _ ↦ false
]

-- `validation_metadata["validation_validator_name"]`
unfoldable pub validator_name_of : Metadata → JsonScalar
unfolding get_item
validator_name_of metadata = elim (get_item "validation_validator_name" metadata) [
  | some name ↦ name
  | none ↦ null
]

module _ {E R : Type 0} (op : AsyncOperation E R) (host : Host (Shared E) R) where
  unfoldable pub fallback_validation_payload : ℕ → String → Metadata → Option Metadata
  unfolding validation_performed validator_name_of
  fallback_validation_payload attempt_number candidate metadata =
      if validation_performed metadata
      then some (
          ("attempt_number", count attempt_number)
          ∷ ("validator_name", validator_name_of metadata)
          ∷ ("fallback_used", bool true)
          ∷ ("fallback_candidate_name", str candidate)
          ∷ [])
      else none

  unfoldable pub emit_fallback_succeeded : ℕ → Metadata → Seconds → Action (Shared E) (Unit {0})
  unfolding emit_event update
  emit_fallback_succeeded attempt_number metadata duration =
      let payload =
        update
          (("attempt_number", count attempt_number)
            ∷ ("duration_seconds", float (finite duration))
            ∷ [])
          metadata in
      emit_event op EventType.fallback_succeeded payload
      >> emit_event op EventType.attempt_succeeded payload

  unfoldable pub end_succeeded_chain :
      Started
      → Progress
      → ℕ
      → Metadata
      → R
      → Seconds
      → ExecutionAttempt
      → Action (Shared E) (OperationResult R)
  unfolding emit_fallback_succeeded conclude_success
  end_succeeded_chain started progress attempt_number metadata value duration attempt =
      emit_fallback_succeeded attempt_number metadata duration
      >> conclude_success op host started (add_attempt attempt progress) metadata value

  unfoldable pub succeeded_fallback : ℕ → Started → Metadata → Seconds → Outcome ExecutionAttempt
  unfolding new_attempt
  succeeded_fallback attempt_number fallback_started metadata duration =
      new_attempt (pos attempt_number) AttemptStatus.succeeded fallback_started.at
        (scalar (float (finite duration))) none (unchecked metadata) true

  unfoldable pub record_succeeded_fallback :
      Started
      → Progress
      → ℕ
      → Started
      → Metadata
      → R
      → Seconds
      → Action (Shared E) (OperationResult R)
  unfolding succeeded_fallback end_succeeded_chain
  record_succeeded_fallback started progress attempt_number fallback_started metadata value
        duration =
      lift (succeeded_fallback attempt_number fallback_started metadata duration)
      >>= end_succeeded_chain started progress attempt_number metadata value duration

  unfoldable pub emit_candidate_events :
      ℕ → FallbackChain (Shared E) R → FallbackResult (R × Metadata) → Action (Shared E) (Unit {0})
  unfolding emit_fallback_validation_failures emit_some fallback_validation_payload
  emit_candidate_events attempt_number chain result =
      emit_fallback_validation_failures op attempt_number chain.candidates result.failures
      >> emit_some op EventType.validation_succeeded
          (fallback_validation_payload attempt_number result.candidate_name result.value.1)

  unfoldable pub time_succeeded_fallback :
      Started
      → Progress
      → ℕ
      → Started
      → FallbackResult (R × Metadata)
      → Action (Shared E) (OperationResult R)
  unfolding elapsed_seconds fallback_success_metadata record_succeeded_fallback
  time_succeeded_fallback started progress attempt_number fallback_started result =
      elapsed_seconds op host fallback_started.monotonic
      >>= record_succeeded_fallback started progress attempt_number fallback_started
          (fallback_success_metadata result result.value.1) result.value.0

  -- After the chain has returned.
  unfoldable pub fallback_succeeded :
      Started
      → Progress
      → ℕ
      → Started
      → FallbackChain (Shared E) R
      → FallbackResult (R × Metadata)
      → Action (Shared E) (OperationResult R)
  unfolding emit_candidate_events time_succeeded_fallback
  fallback_succeeded started progress attempt_number fallback_started chain result =
      emit_candidate_events attempt_number chain result
      >> time_succeeded_fallback started progress attempt_number fallback_started result
