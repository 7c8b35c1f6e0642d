-- ===== src/Report/Build.antt =====
-- The checked construction of attempts and reports in src/relprim/report.py.
pub mod Checked
pub mod Foreign
mod Examples
use relprim.Prelude.{
  String, Bool, true, false, not, ◌&&◌, Option, none, some, List, if◌then◌else◌, is_some, last?,
}
use relprim.Prelude.Int.{ℤ, pos, pos_part, leb_ℤ}
use relprim.Prelude.Text.{is_blank}
use relprim.Values.{PyObject, Datetime, Message, text, is_empty}
use relprim.Report.{
  ExecutionStatus, AttemptStatus, ExecutionError, ExecutionAttempt, ExecutionReport,
  attempt_succeeded, execution_succeeded,
}
use relprim.Errors.{
  Exception, external, value_error, type_error, runtime_error, overflow_error, timeout_error,
  retry_error, operation_timeout_error, operation_execution_error, fallback_chain_error,
  circuit_breaker_open_error, validation_failed_error, idempotency_reentry_error,
  retry_after_extraction_error, sqlite_schema_error,
}
use relprim.Outcome.{Outcome, returned, raised, bind_outcome}
use relprim.Checks.{check_seconds, check_aware, freeze_json_scalars, Mapping}

-- exception.__class__.__name__
unfoldable pub class_name : Exception → String
class_name (external c m) = c.class_name
class_name (value_error m) = "ValueError"
class_name (type_error m) = "TypeError"
class_name (runtime_error m) = "RuntimeError"
class_name (overflow_error m) = "OverflowError"
class_name (timeout_error m) = "TimeoutError"
class_name (retry_error m n c) = "RetryError"
class_name (operation_timeout_error m s c) = "OperationTimeoutError"
class_name (operation_execution_error m r c) = "OperationExecutionError"
class_name (fallback_chain_error m fs) = "FallbackChainError"
class_name (circuit_breaker_open_error m n s r) = "CircuitBreakerOpenError"
class_name (validation_failed_error m v r) = "ValidationFailedError"
class_name (idempotency_reentry_error m k) = "IdempotencyReentryError"
class_name (retry_after_extraction_error m e c) = "RetryAfterExtractionError"
class_name (sqlite_schema_error m) = "SQLiteEventStoreSchemaError"

-- exception.__class__.__module__
class_module : Exception → String
class_module (external c m) = c.module_name
class_module (value_error m) = "builtins"
class_module (type_error m) = "builtins"
class_module (runtime_error m) = "builtins"
class_module (overflow_error m) = "builtins"
class_module (timeout_error m) = "builtins"
class_module _ = "relprim.errors"

-- str(exception)
unfoldable pub message_of : Exception → Message
message_of (external c m) = m
message_of (value_error m) = m
message_of (type_error m) = m
message_of (runtime_error m) = m
message_of (overflow_error m) = m
message_of (timeout_error m) = m
message_of (retry_error m n c) = m
message_of (operation_timeout_error m s c) = m
message_of (operation_execution_error m r c) = m
message_of (fallback_chain_error m fs) = m
message_of (circuit_breaker_open_error m n s r) = m
message_of (validation_failed_error m v r) = m
message_of (idempotency_reentry_error m k) = m
message_of (retry_after_extraction_error m e c) = m
message_of (sqlite_schema_error m) = m

-- `ExecutionError.from_exception`
unfoldable pub from_exception : Exception → Option Bool → ExecutionError
unfolding class_name class_module message_of
from_exception e retryable = record {
  type = class_name e;
  message = if is_empty (message_of e) then text (class_name e) else message_of e;
  module_name = some (class_module e);
  retryable = retryable;
}

-- The guard of a raise.
unfoldable pub require : Bool → String → Outcome (Unit {0})
require true m = returned tt
require false m = raised (value_error (text m))

-- `ExecutionAttempt(...)` with `__post_init__`.
unfoldable pub new_attempt :
    ℤ
    → AttemptStatus
    → Datetime
    → PyObject
    → Option ExecutionError
    → Mapping
    → Bool
    → Outcome ExecutionAttempt
unfolding require
new_attempt attempt_number status started_at duration error metadata fallback =
    bind_outcome
      (require (leb_ℤ (pos 1) attempt_number) "attempt_number must be greater than or equal to 1.")
      λ _. bind_outcome (check_seconds "duration_seconds" true duration) λ duration_seconds.
        bind_outcome
          (require (not (attempt_succeeded status && is_some error))
            "successful attempts must not contain an error.")
          λ _. bind_outcome (check_aware "started_at" started_at) λ _.
            bind_outcome (freeze_json_scalars "metadata" metadata) λ frozen. returned (record {
              attempt_number = pos_part attempt_number;
              status = status;
              started_at = started_at;
              duration_seconds = duration_seconds;
              error = error;
              metadata = frozen;
              fallback = fallback;
            })

-- The two status checks, for the last attempt.
check_last : ExecutionStatus → Option ExecutionAttempt → Outcome (Unit {0})
unfolding require
check_last status none =
    raised (value_error (text "attempts must contain at least one execution attempt."))
check_last status (some last) =
    bind_outcome
      (require (not (execution_succeeded status && not (attempt_succeeded last.status)))
        "successful reports must end with a successful attempt.")
      λ _.
        require (not (not (execution_succeeded status) && attempt_succeeded last.status))
          "failed reports must not end with a successful attempt."

-- `ExecutionReport(...)` with `__post_init__`.
unfoldable pub new_report :
    String
    → ExecutionStatus
    → Datetime
    → PyObject
    → List ExecutionAttempt
    → Mapping
    → Outcome ExecutionReport
unfolding require check_last
new_report operation_name status started_at duration attempts metadata =
    bind_outcome (require (not (is_blank operation_name)) "operation_name must not be empty.") λ _.
      bind_outcome (check_seconds "duration_seconds" true duration) λ duration_seconds.
        bind_outcome (check_last status (last? attempts)) λ _.
          bind_outcome (check_aware "started_at" started_at) λ _.
            bind_outcome (freeze_json_scalars "metadata" metadata) λ frozen. returned (record {
              operation_name = operation_name;
              status = status;
              started_at = started_at;
              duration_seconds = duration_seconds;
              attempts = attempts;
              metadata = frozen;
            })
