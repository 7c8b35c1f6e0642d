-- ===== src/Operation/Run.antt =====
-- `_run_without_idempotency` of src/relprim/operation.py: the loop over the attempts.
pub mod Rounds
pub mod Endings
pub mod Reports
mod Examples
use relprim.Prelude.{
  ℕ, zero, suc, ◌+◌, Bool, true, false, Option, none, some, [], ◌∷◌, ltb, if◌then◌else◌, is_some,
  length,
}
use relprim.Prelude.Int.{pos}
use relprim.Values.{Seconds, Duration, finite, bool, float, scalar, Metadata, lit, number, text}
use relprim.Report.{AttemptStatus, ExecutionAttempt, attempt_succeeded}
use relprim.Errors.{runtime_error}
use relprim.Outcome.{Outcome, returned, raised, interrupted, Action, raise, lift, ◌>>=◌, ◌>>◌}
use relprim.Checks.{unchecked}
use relprim.Prelude.Dict.{update}
use relprim.CircuitBreaker.{Shared}
use relprim.Fallback.{FallbackChain, should_fallback}
use relprim.Report.Build.{new_attempt}
use relprim.Events.{EventType}
use relprim.Operation.{max_attempts, AsyncOperation, Host, OperationResult}
use relprim.Operation.PlanMetadata.{
  will_retry, count, primary_success_metadata, attempt_status_for_exception,
}
use relprim.Operation.Attempt.{emit_some, emit_event, run_single_attempt, sleep_before_retry}
use relprim.Operation.Progress.{
  Progress, Started, no_progress, add_attempt, start_now, elapsed_seconds, conclude_success,
  conclude_failure,
}
use relprim.Operation.Failure.{Failed, handle_failure}
use relprim.Operation.Fallbacks.Succeeded.{validation_performed, validator_name_of}
use relprim.Operation.Fallbacks.{run_fallbacks}

module _ {E R : Type 0} (op : AsyncOperation E R) (host : Host (Shared E) R) where
  validation_payload : ℕ → Metadata → Option Metadata
  unfolding validation_performed validator_name_of
  validation_payload attempt_number metadata =
      if validation_performed metadata
      then some (
          ("attempt_number", count attempt_number)
          ∷ ("validator_name", validator_name_of metadata)
          ∷ [])
      else none

  end_primary :
      Started
      → ℕ
      → Progress
      → R
      → Metadata
      → Seconds
      → ExecutionAttempt
      → Action (Shared E) (OperationResult R)
  unfolding primary_success_metadata emit_event update conclude_success
  end_primary started attempt_number progress value metadata duration attempt =
      emit_event op EventType.attempt_succeeded (
        update
          (("attempt_number", count attempt_number)
            ∷ ("duration_seconds", float (finite duration))
            ∷ [])
          metadata)
      >> conclude_success op host started (add_attempt attempt progress) metadata value

  succeeded_attempt : ℕ → Started → Metadata → Seconds → Outcome ExecutionAttempt
  unfolding new_attempt
  succeeded_attempt attempt_number attempt_started metadata duration =
      new_attempt (pos attempt_number) AttemptStatus.succeeded attempt_started.at
        (scalar (float (finite duration))) none (unchecked metadata) false

  record_primary :
      Started
      → ℕ
      → Started
      → Progress
      → R
      → Metadata
      → Seconds
      → Action (Shared E) (OperationResult R)
  unfolding succeeded_attempt end_primary
  record_primary started attempt_number attempt_started progress value metadata duration =
      lift (succeeded_attempt attempt_number attempt_started metadata duration)
      >>= end_primary started attempt_number progress value metadata duration

  time_primary :
      Started → ℕ → Started → Progress → R → Metadata → Action (Shared E) (OperationResult R)
  unfolding elapsed_seconds record_primary
  time_primary started attempt_number attempt_started progress value metadata =
      elapsed_seconds op host attempt_started.monotonic
      >>= record_primary started attempt_number attempt_started progress value metadata

  -- After the `try` of an attempt that has returned.
  unfoldable pub primary_succeeded :
      Started → ℕ → Started → Progress → R → Metadata → Action (Shared E) (OperationResult R)
  unfolding emit_some validation_payload primary_success_metadata time_primary
  primary_succeeded started attempt_number attempt_started progress value validation_metadata =
      emit_some op EventType.validation_succeeded
        (validation_payload attempt_number validation_metadata)
      >> time_primary started attempt_number attempt_started progress value
          (primary_success_metadata validation_metadata)

  -- The end of the handler when no attempt follows and no fallback is tried.
  give_up : Started → Failed → Action (Shared E) (OperationResult R)
  unfolding conclude_failure attempt_status_for_exception
  give_up started f =
      conclude_failure op host started f.progress (attempt_status_for_exception f.exc) f.metadata
        (lit "Operation '"
          ∷ lit op.name
          ∷ lit "' failed after "
          ∷ number (length f.progress.attempts)
          ∷ lit " attempt(s)."
          ∷ [])
        f.exc

  fallback_if :
      Bool → FallbackChain (Shared E) R → Started → Failed → Action (Shared E) (OperationResult R)
  unfolding run_fallbacks give_up
  fallback_if true chain started f = run_fallbacks op host started f.progress chain
  fallback_if false chain started f = give_up started f

  pub fallback_or_give_up :
      Option (FallbackChain (Shared E) R) → Started → Failed → Action (Shared E) (OperationResult R)
  unfolding fallback_if give_up should_fallback
  fallback_or_give_up none started f = give_up started f
  fallback_or_give_up (some chain) started f =
      fallback_if (should_fallback chain.policy f.exc) chain started f

  unfoldable pub without_retry : Started → Failed → Action (Shared E) (OperationResult R)
  unfolding fallback_or_give_up
  without_retry started f = fallback_or_give_up op.fallback_chain started f

  -- `if retry_plan.rate_limited: rate_limit_wait_seconds += delay_seconds`
  abbrev waited : Failed → Duration → Progress
  waited f delay =
      if f.plan.rate_limited
      then record f.progress {
        rate_limit_wait_seconds = f.progress.rate_limit_wait_seconds + delay;
      }
      else f.progress

  after_sleep :
      (Progress → Action (Shared E) (OperationResult R))
      → Failed
      → Duration
      → Action (Shared E) (OperationResult R)
  after_sleep rest f delay = rest (waited f delay)

  -- The `continue` of the handler, with the rest of the loop.
  retry_if :
      Bool
      → Started
      → ℕ
      → (Progress → Action (Shared E) (OperationResult R))
      → Failed
      → Action (Shared E) (OperationResult R)
  unfolding sleep_before_retry without_retry after_sleep
  retry_if false started attempt_number rest f = without_retry started f
  retry_if true started attempt_number rest f =
      sleep_before_retry op host attempt_number f.plan >>= after_sleep rest f

  retry_or_end :
      Started
      → ℕ
      → (Progress → Action (Shared E) (OperationResult R))
      → Failed
      → Action (Shared E) (OperationResult R)
  unfolding will_retry retry_if
  retry_or_end started attempt_number rest f =
      retry_if (will_retry f.plan) started attempt_number rest f

  -- By how the attempt ends.
  end_attempt :
      Started
      → ℕ
      → Progress
      → (Progress → Action (Shared E) (OperationResult R))
      → Started
      → Outcome (R × Metadata)
      → Action (Shared E) (OperationResult R)
  unfolding primary_succeeded handle_failure retry_or_end max_attempts
  end_attempt started attempt_number progress rest attempt_started (interrupted i) =
      lift (interrupted i)
  end_attempt started attempt_number progress rest attempt_started (returned r) =
      primary_succeeded started attempt_number attempt_started progress r.0 r.1
  end_attempt started attempt_number progress rest attempt_started (raised exc) =
      handle_failure op host attempt_number (ltb attempt_number (max_attempts op)) attempt_started
        exc progress
      >>= retry_or_end started attempt_number rest

  -- The `try` around the attempt.
  try_attempt :
      Started
      → ℕ
      → Progress
      → (Progress → Action (Shared E) (OperationResult R))
      → Started
      → Action (Shared E) (OperationResult R)
  unfolding run_single_attempt end_attempt
  try_attempt started attempt_number progress rest attempt_started w =
      let (o, w') = run_single_attempt op host w in
      end_attempt started attempt_number progress rest attempt_started o w'

  attempt_payload : ℕ → Metadata
  unfolding max_attempts
  attempt_payload attempt_number =
      ("attempt_number", count attempt_number) ∷ ("max_attempts", count (max_attempts op)) ∷ []

  start_attempt :
      Started
      → ℕ
      → Progress
      → (Progress → Action (Shared E) (OperationResult R))
      → Started
      → Action (Shared E) (OperationResult R)
  unfolding emit_event try_attempt attempt_payload
  start_attempt started attempt_number progress rest attempt_started =
      emit_event op EventType.attempt_started (attempt_payload attempt_number)
      >> try_attempt started attempt_number progress rest attempt_started

  -- `for attempt_number in range(1, max_attempts + 1)`, with the rounds that are left.
  unfoldable pub attempts_loop : Started → ℕ → ℕ → Progress → Action (Shared E) (OperationResult R)
  unfolding start_now start_attempt
  attempts_loop started zero attempt_number progress =
      raise (runtime_error (text "AsyncOperation reached an invalid execution state."))
  attempts_loop started (suc rounds) attempt_number progress =
      start_now op host
      >>= start_attempt started attempt_number progress
          (attempts_loop started rounds (attempt_number + 1))

  operation_payload : Metadata
  operation_payload =
      ("retry_enabled", bool (is_some op.retry_policy))
      ∷ ("timeout_enabled", bool (is_some op.timeout_policy))
      ∷ ("fallback_enabled", bool (is_some op.fallback_chain))
      ∷ ("circuit_breaker_enabled", bool (is_some op.circuit_breaker))
      ∷ ("validation_enabled", bool (is_some op.validation_policy))
      ∷ ("rate_limit_enabled", bool (is_some op.rate_limit_policy))
      ∷ []

  start_operation : Started → Action (Shared E) (OperationResult R)
  unfolding emit_event attempts_loop max_attempts operation_payload
  start_operation started =
      emit_event op EventType.operation_started operation_payload
      >> attempts_loop started (max_attempts op) 1 no_progress

  unfoldable pub run_without_idempotency : Action (Shared E) (OperationResult R)
  unfolding start_now start_operation
  run_without_idempotency = start_now op host >>= start_operation
