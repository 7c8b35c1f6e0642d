-- ===== src/Operation/Progress.antt =====
-- The local variables of `_run_without_idempotency` in src/relprim/operation.py, and the ends of it:
-- the report with its event, and the result or the OperationExecutionError.
pub mod Reports
use relprim.Prelude.{Bool, false, List, [], ◌∷◌, ◌++◌}
use relprim.Prelude.Int.{pos, ◌-ℤ◌}
use relprim.Values.{Seconds, Duration, finite, float, str, scalar, Metadata, Datetime, Message}
use relprim.Report.{
  ExecutionStatus, AttemptStatus, ExecutionAttempt, ExecutionReport, attempt_count, retry_count,
}
use relprim.Errors.{Exception, operation_execution_error}
use relprim.Outcome.{Action, pure, raise, lift, ◌>>=◌, ◌>>◌}
use relprim.Checks.{unchecked}
use relprim.Prelude.Dict.{update}
use relprim.CircuitBreaker.{Shared}
use relprim.Report.Build.{class_name, new_report}
use relprim.Events.{EventType}
use relprim.Operation.{AsyncOperation, Host, OperationResult}
use relprim.Operation.PlanMetadata.{
  count, rate_limit_summary_metadata, merge_metadata, report_status_for_attempt_status,
}
use relprim.Operation.Attempt.{read, emit_event}

pub record Progress : Type 0 where
  pub attempts : List ExecutionAttempt
  pub rate_limit_encountered : Bool
  pub rate_limit_wait_seconds : Duration
  pub rate_limit_wait_exceeded : Bool

abbrev pub no_progress : Progress
no_progress = record {
  attempts = [];
  rate_limit_encountered = false;
  rate_limit_wait_seconds = 0;
  rate_limit_wait_exceeded = false;
}

abbrev pub add_attempt : ExecutionAttempt → Progress → Progress
add_attempt a p = record p { attempts = p.attempts ++ a ∷ [] }

-- When something started: the wall clock and the performance counter.
pub record Started : Type 0 where
  pub at : Datetime
  pub monotonic : Seconds

module _ {E R : Type 0} (op : AsyncOperation E R) (host : Host (Shared E) R) where
  unfoldable pub start_now : Action (Shared E) Started
  start_now = do
    at ← read host.utc_now
    monotonic ← read host.perf_counter
    pure (record { at = at; monotonic = monotonic })

  unfoldable pub elapsed_seconds : Seconds → Action (Shared E) Seconds
  elapsed_seconds started_at = do now ← read host.perf_counter; pure (now -ℤ started_at)

  report_of :
      ExecutionStatus
      → Started
      → List ExecutionAttempt
      → Metadata
      → Seconds
      → Action (Shared E) ExecutionReport
  unfolding new_report
  report_of status started attempts metadata duration = lift (
      new_report op.name status started.at (scalar (float (finite duration))) attempts
        (unchecked metadata))

  unfoldable pub build_report :
      ExecutionStatus
      → Started
      → List ExecutionAttempt
      → Metadata
      → Action (Shared E) ExecutionReport
  unfolding elapsed_seconds report_of
  build_report status started attempts metadata =
      elapsed_seconds started.monotonic >>= report_of status started attempts metadata

  report_metadata : Metadata → Progress → Metadata
  unfolding merge_metadata rate_limit_summary_metadata
  report_metadata metadata p = merge_metadata (
      metadata
      ∷ rate_limit_summary_metadata p.rate_limit_encountered p.rate_limit_wait_seconds
          p.rate_limit_wait_exceeded
      ∷ [])

  -- The numbers that both final events carry.
  report_numbers : ExecutionReport → Metadata
  unfolding attempt_count retry_count
  report_numbers report =
      ("duration_seconds", float (finite (pos report.duration_seconds)))
      ∷ ("attempt_count", count (attempt_count report))
      ∷ ("retry_count", count (retry_count report))
      ∷ []

  announce_success : Metadata → R → ExecutionReport → Action (Shared E) (OperationResult R)
  unfolding report_numbers emit_event update
  announce_success metadata value report =
      emit_event op EventType.operation_succeeded (update (report_numbers report) metadata)
      >> pure (record { value = value; report = report })

  -- The success of an attempt or of the fallback chain: report, event, result.
  unfoldable pub conclude_success :
      Started → Progress → Metadata → R → Action (Shared E) (OperationResult R)
  unfolding build_report report_metadata announce_success
  conclude_success started progress metadata value =
      build_report ExecutionStatus.succeeded started progress.attempts
        (report_metadata metadata progress)
      >>= announce_success (report_metadata metadata progress) value

  announce_failure :
      Metadata → Message → Exception → ExecutionReport → Action (Shared E) (OperationResult R)
  unfolding report_numbers emit_event update class_name
  announce_failure metadata message exc report =
      emit_event op EventType.operation_failed
        (update (report_numbers report ++ ("error_type", str (class_name exc)) ∷ []) metadata)
      >> raise (operation_execution_error message report exc)

  -- The failure: report, event, OperationExecutionError with the message given.
  unfoldable pub conclude_failure :
      Started
      → Progress
      → AttemptStatus
      → Metadata
      → Message
      → Exception
      → Action (Shared E) (OperationResult R)
  unfolding build_report report_metadata announce_failure report_status_for_attempt_status
  conclude_failure started progress status metadata message exc =
      build_report (report_status_for_attempt_status status) started progress.attempts
        (report_metadata metadata progress)
      >>= announce_failure (report_metadata metadata progress) message exc
