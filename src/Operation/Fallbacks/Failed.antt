-- ===== src/Operation/Fallbacks/Failed.antt =====
-- What `_run_without_idempotency` of src/relprim/operation.py does when the fallback chain fails.
pub mod Reports
use relprim.Prelude.{ℕ, true, false, Option, none, some, [], ◌∷◌}
use relprim.Prelude.Int.{pos}
use relprim.Values.{Seconds, finite, null, bool, float, str, scalar, Metadata, lit}
use relprim.Report.{ExecutionAttempt}
use relprim.Errors.{Exception, failure_list, validation_failed_error}
use relprim.Outcome.{Outcome, Action, lift, ◌>>=◌, ◌>>◌}
use relprim.Checks.{unchecked}
use relprim.Prelude.Dict.{update}
use relprim.CircuitBreaker.{Shared}
use relprim.Fallback.{FallbackChain}
use relprim.Report.Build.{class_name, new_attempt, from_exception}
use relprim.Events.{EventType}
use relprim.Operation.{AsyncOperation, Host, OperationResult}
use relprim.Operation.PlanMetadata.{
  chain_failures, count, attempt_status_for_exception, fallback_failure_metadata,
}
use relprim.Operation.Attempt.{emit_some, emit_event, emit_fallback_validation_failures}
use relprim.Operation.Progress.{Progress, Started, add_attempt, elapsed_seconds, conclude_failure}

module _ {E R : Type 0} (op : AsyncOperation E R) (host : Host (Shared E) R) where
  -- `elif isinstance(fallback_exc, ValidationFailedError)`
  unfoldable pub chain_payload : ℕ → Exception → Option Metadata
  chain_payload attempt_number (validation_failed_error m name reason) = some (
      ("attempt_number", count attempt_number)
      ∷ ("validator_name", str name)
      ∷ ("reason", str reason)
      ∷ ("fallback_used", bool true)
      ∷ ("fallback_candidate_name", null)
      ∷ [])
  chain_payload attempt_number _ = none

  -- The events of invalid candidates, when the chain has failed. Only a FallbackChainError has
  -- failures.
  unfoldable pub emit_chain_failure :
      ℕ → FallbackChain (Shared E) R → Exception → Action (Shared E) (Unit {0})
  unfolding emit_some emit_fallback_validation_failures chain_payload
  emit_chain_failure attempt_number chain exc =
      emit_fallback_validation_failures op attempt_number chain.candidates
        (failure_list (chain_failures exc))
      >> emit_some op EventType.validation_failed (chain_payload attempt_number exc)

  unfoldable pub failed_fallback : ℕ → Started → Exception → Seconds → Outcome ExecutionAttempt
  unfolding fallback_failure_metadata new_attempt from_exception attempt_status_for_exception
  failed_fallback attempt_number fallback_started exc duration =
      new_attempt (pos attempt_number) (attempt_status_for_exception exc) fallback_started.at
        (scalar (float (finite duration))) (some (from_exception exc (some false)))
        (unchecked (fallback_failure_metadata exc)) true

  unfoldable pub emit_fallback_failed : ℕ → Exception → Seconds → Action (Shared E) (Unit {0})
  unfolding emit_event class_name update fallback_failure_metadata
  emit_fallback_failed attempt_number exc duration =
      emit_event op EventType.fallback_failed (
        update
          (("attempt_number", count attempt_number)
            ∷ ("duration_seconds", float (finite duration))
            ∷ ("error_type", str (class_name exc))
            ∷ [])
          (fallback_failure_metadata exc))
      >> emit_event op EventType.attempt_failed (
          update
            (("attempt_number", count attempt_number)
              ∷ ("duration_seconds", float (finite duration))
              ∷ ("error_type", str (class_name exc))
              ∷ ("retryable", bool false)
              ∷ [])
            (fallback_failure_metadata exc))

  unfoldable pub end_failed_chain :
      Started
      → Progress
      → ℕ
      → Exception
      → Seconds
      → ExecutionAttempt
      → Action (Shared E) (OperationResult R)
  unfolding emit_fallback_failed conclude_failure attempt_status_for_exception
      fallback_failure_metadata
  end_failed_chain started progress attempt_number exc duration attempt =
      emit_fallback_failed attempt_number exc duration
      >> conclude_failure op host started (add_attempt attempt progress)
          (attempt_status_for_exception exc) (fallback_failure_metadata exc)
          (lit "Operation '" ∷ lit op.name ∷ lit "' failed and fallback chain failed." ∷ []) exc

  unfoldable pub record_failed_fallback :
      Started
      → Progress
      → ℕ
      → Started
      → FallbackChain (Shared E) R
      → Exception
      → Seconds
      → Action (Shared E) (OperationResult R)
  unfolding emit_chain_failure failed_fallback end_failed_chain
  record_failed_fallback started progress attempt_number fallback_started chain exc duration =
      emit_chain_failure attempt_number chain exc
      >> (lift (failed_fallback attempt_number fallback_started exc duration)
          >>= end_failed_chain started progress attempt_number exc duration)

  -- `except Exception as fallback_exc`
  unfoldable pub fallback_failed :
      Started
      → Progress
      → ℕ
      → Started
      → FallbackChain (Shared E) R
      → Exception
      → Action (Shared E) (OperationResult R)
  unfolding elapsed_seconds record_failed_fallback
  fallback_failed started progress attempt_number fallback_started chain exc =
      elapsed_seconds op host fallback_started.monotonic
      >>= record_failed_fallback started progress attempt_number fallback_started chain exc
