-- ===== src/Operation/Failure.antt =====
-- A failed primary attempt in `_run_without_idempotency` of src/relprim/operation.py: the retry plan,
-- the events, and the attempt that is recorded.
pub mod Reports
use relprim.Prelude.{ℕ, Bool, true, false, ◌||◌, Option, none, some, [], ◌∷◌, if◌then◌else◌}
use relprim.Prelude.Int.{pos}
use relprim.Values.{Seconds, finite, JsonScalar, null, bool, float, str, scalar, Metadata}
use relprim.Report.{ExecutionAttempt}
use relprim.Errors.{
  Exception, circuit_breaker_open_error, validation_failed_error, retry_after_extraction_error,
}
use relprim.Outcome.{Outcome, returned, raised, interrupted, Action, pure, raise, lift, ◌>>=◌, ◌>>◌}
use relprim.Checks.{unchecked}
use relprim.Prelude.Dict.{update}
use relprim.CircuitBreaker.{Shared, state_value}
use relprim.Report.Build.{class_name, new_attempt, from_exception}
use relprim.Events.{EventType}
use relprim.Operation.{AsyncOperation, Host}
use relprim.Operation.PlanMetadata.{
  RetryPlan, plain_plan, new_plan, count, optional_seconds, attempt_status_for_exception,
  primary_failure_metadata,
}
use relprim.Operation.Plan.{retry_plan_for_exception}
use relprim.Operation.Attempt.{emit_some, emit_event}
use relprim.Operation.Progress.{Progress, Started, add_attempt, elapsed_seconds}

-- What the handler knows once the attempt is recorded.
pub record Failed : Type 0 where
  pub exc : Exception
  pub plan : RetryPlan
  pub metadata : Metadata
  pub progress : Progress

-- isinstance(error, RetryAfterExtractionError)
abbrev is_extraction_error : Exception → Bool
is_extraction_error (retry_after_extraction_error m e c) = true
is_extraction_error _ = false

module _ {E R : Type 0} (op : AsyncOperation E R) (host : Host (Shared E) R) where
  -- `except RetryAfterExtractionError`: the error takes the place of the exception. Any other one
  -- leaves the handler.
  extraction_failed : Bool → Exception → Action (Shared E) (Exception × RetryPlan)
  unfolding new_plan
  extraction_failed true error = lift (new_plan (plain_plan false)) >>= λ plan. pure (error, plan)
  extraction_failed false error = raise error

  end_planning : Exception → Outcome RetryPlan → Action (Shared E) (Exception × RetryPlan)
  unfolding extraction_failed
  end_planning exc (returned plan) = pure (exc, plan)
  end_planning exc (raised error) = extraction_failed (is_extraction_error error) error
  end_planning exc (interrupted i) = lift (interrupted i)

  -- The `try` around `_retry_plan_for_exception`.
  unfoldable pub plan_failure : Exception → ℕ → Bool → Action (Shared E) (Exception × RetryPlan)
  unfolding retry_plan_for_exception end_planning
  plan_failure exc attempt_number remaining w =
      let (o, w') = retry_plan_for_exception host.environment op exc attempt_number remaining w in
      end_planning exc o w'

  max_wait_seconds : JsonScalar
  max_wait_seconds = elim op.rate_limit_policy [
    | some limit ↦ float (finite (pos limit.max_wait_seconds))
    | none ↦ null
  ]

  wait_exceeded_payload : ℕ → RetryPlan → Option Metadata
  unfolding max_wait_seconds
  wait_exceeded_payload attempt_number plan =
      if plan.max_wait_exceeded
      then some (
          ("attempt_number", count attempt_number)
          ∷ ("retry_after_seconds", optional_seconds plan.retry_after_seconds)
          ∷ ("delay_seconds", optional_seconds plan.delay_seconds)
          ∷ ("max_wait_seconds", max_wait_seconds)
          ∷ [])
      else none

  rate_limit_payload : ℕ → Exception → RetryPlan → Metadata
  unfolding class_name max_wait_seconds
  rate_limit_payload attempt_number exc plan =
      ("attempt_number", count attempt_number)
      ∷ ("error_type", str (class_name exc))
      ∷ ("retry_after_seconds", optional_seconds plan.retry_after_seconds)
      ∷ ("max_wait_seconds", max_wait_seconds)
      ∷ ("max_wait_exceeded", bool plan.max_wait_exceeded)
      ∷ []

  emit_rate_limit : ℕ → Exception → RetryPlan → Action (Shared E) (Unit {0})
  unfolding emit_event emit_some rate_limit_payload wait_exceeded_payload
  emit_rate_limit attempt_number exc plan =
      emit_event op EventType.rate_limit_detected (rate_limit_payload attempt_number exc plan)
      >> emit_some op EventType.rate_limit_wait_exceeded (wait_exceeded_payload attempt_number plan)

  abbrev limited : RetryPlan → Progress → Progress
  limited plan progress = record progress {
    rate_limit_encountered = true;
    rate_limit_wait_exceeded = progress.rate_limit_wait_exceeded || plan.max_wait_exceeded;
  }

  -- `if retry_plan.rate_limited:`
  note_if : Bool → ℕ → Exception → RetryPlan → Progress → Action (Shared E) Progress
  unfolding emit_rate_limit
  note_if false attempt_number exc plan progress = pure progress
  note_if true attempt_number exc plan progress =
      emit_rate_limit attempt_number exc plan >> pure (limited plan progress)

  unfoldable pub note_rate_limit : ℕ → Exception → RetryPlan → Progress → Action (Shared E) Progress
  unfolding note_if
  note_rate_limit attempt_number exc plan progress =
      note_if plan.rate_limited attempt_number exc plan progress

  -- The events that depend on the class of the exception.
  validation_payload : ℕ → Exception → Option Metadata
  validation_payload attempt_number (validation_failed_error m name reason) = some (
      ("attempt_number", count attempt_number)
      ∷ ("validator_name", str name)
      ∷ ("reason", str reason)
      ∷ [])
  validation_payload attempt_number _ = none

  rejection_payload : ℕ → Exception → Option Metadata
  rejection_payload attempt_number (circuit_breaker_open_error m name state retry_after) = some (
      ("attempt_number", count attempt_number)
      ∷ ("breaker_name", str name)
      ∷ ("state", str (state_value state))
      ∷ ("retry_after_seconds", elim retry_after [ none ↦ null | some s ↦ float (finite s) ])
      ∷ [])
  rejection_payload attempt_number _ = none

  emit_failure_details : ℕ → Exception → Action (Shared E) (Unit {0})
  unfolding emit_some validation_payload rejection_payload
  emit_failure_details attempt_number exc =
      emit_some op EventType.validation_failed (validation_payload attempt_number exc)
      >> emit_some op EventType.circuit_breaker_rejected (rejection_payload attempt_number exc)

  -- The ATTEMPT_FAILED event, and the attempt in the list.
  announce_attempt :
      ℕ → Seconds → Exception → RetryPlan → Progress → ExecutionAttempt → Action (Shared E) Failed
  unfolding primary_failure_metadata emit_event class_name update
  announce_attempt attempt_number duration exc plan progress attempt =
      let metadata = primary_failure_metadata exc plan in
      emit_event op EventType.attempt_failed (
        update
          (("attempt_number", count attempt_number)
            ∷ ("duration_seconds", float (finite duration))
            ∷ ("error_type", str (class_name exc))
            ∷ ("retryable", bool plan.retryable)
            ∷ [])
          metadata)
      >> pure (record {
        exc = exc;
        plan = plan;
        metadata = metadata;
        progress = add_attempt attempt progress;
      })

  failed_attempt : ℕ → Started → Seconds → Exception → RetryPlan → Outcome ExecutionAttempt
  unfolding new_attempt from_exception attempt_status_for_exception primary_failure_metadata
  failed_attempt attempt_number started duration exc plan =
      new_attempt (pos attempt_number) (attempt_status_for_exception exc) started.at
        (scalar (float (finite duration))) (some (from_exception exc (some plan.retryable)))
        (unchecked (primary_failure_metadata exc plan)) false

  record_failed_attempt :
      ℕ → Started → Exception → RetryPlan → Progress → Seconds → Action (Shared E) Failed
  unfolding emit_failure_details failed_attempt announce_attempt
  record_failed_attempt attempt_number started exc plan progress duration =
      emit_failure_details attempt_number exc
      >> (lift (failed_attempt attempt_number started duration exc plan)
          >>= announce_attempt attempt_number duration exc plan progress)

  time_failed_attempt : ℕ → Started → Exception → RetryPlan → Progress → Action (Shared E) Failed
  unfolding elapsed_seconds record_failed_attempt
  time_failed_attempt attempt_number started exc plan progress =
      elapsed_seconds op host started.monotonic
      >>= record_failed_attempt attempt_number started exc plan progress

  handle_planned : ℕ → Started → Progress → Exception × RetryPlan → Action (Shared E) Failed
  unfolding note_rate_limit time_failed_attempt
  handle_planned attempt_number started progress (exc, plan) =
      note_rate_limit attempt_number exc plan progress
      >>= time_failed_attempt attempt_number started exc plan

  -- `except Exception as exc`, up to the event of the failed attempt.
  unfoldable pub handle_failure :
      ℕ → Bool → Started → Exception → Progress → Action (Shared E) Failed
  unfolding plan_failure handle_planned
  handle_failure attempt_number remaining started raised_exc progress =
      plan_failure raised_exc attempt_number remaining
      >>= handle_planned attempt_number started progress
