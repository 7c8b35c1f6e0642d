-- ===== src/Operation/PlanMetadata.antt =====
-- The retry plan of a failed attempt, and the metadata functions of src/relprim/operation.py.
use relprim.Prelude.{
  ℕ, String, Bool, true, false, not, ◌&&◌, ◌||◌, Option, none, some, List, [], ◌∷◌, if◌then◌else◌,
  is_some, length,
}
use relprim.Prelude.Int.{pos}
use relprim.Values.{Duration, finite, JsonScalar, null, bool, int, float, str, Metadata, text}
use relprim.Report.{ExecutionStatus, AttemptStatus}
use relprim.Errors.{
  Exception, Failures, no_failures, failure_list, final_failure, value_error,
  operation_timeout_error, fallback_chain_error, circuit_breaker_open_error,
  validation_failed_error,
}
use relprim.Outcome.{Outcome, returned, raised}
use relprim.Prelude.Dict.{update, set_item}
use relprim.Fallback.{FallbackResult, failure_count}
use relprim.Validation.{ValidationResult}

pub data RetryDelaySource : Type 0 where
  backoff provider : RetryDelaySource

abbrev pub source_value : RetryDelaySource → String
source_value backoff = "backoff"
source_value provider = "provider"

pub record RetryPlan : Type 0 where
  pub retryable : Bool
  pub rate_limited : Bool
  pub retry_after_seconds : Option Duration
  pub delay_seconds : Option Duration
  pub delay_source : Option RetryDelaySource
  pub max_wait_exceeded : Bool

-- `_RetryPlan(retryable=...)` with its defaults.
abbrev pub plain_plan : Bool → RetryPlan
plain_plan retryable = record {
  retryable = retryable;
  rate_limited = false;
  retry_after_seconds = none;
  delay_seconds = none;
  delay_source = none;
  max_wait_exceeded = false;
}

abbrev same : Bool → Bool → Bool
same true b = b
same false b = not b

-- `_RetryPlan(...)` with `__post_init__`.
unfoldable pub new_plan : RetryPlan → Outcome RetryPlan
new_plan p =
    if not (same (is_some p.delay_seconds) (is_some p.delay_source))
    then raised (value_error (text "delay_seconds and delay_source must be set together."))
    else if p.max_wait_exceeded
    then if not p.rate_limited || (p.retryable || not (is_some p.delay_seconds))
      then raised (value_error (text "max_wait_exceeded requires a rejected rate-limit delay."))
      else returned p
    else if not p.retryable && is_some p.delay_seconds
    then raised (value_error (text "non-retryable plans must not include a retry delay."))
    else returned p

unfoldable pub will_retry : RetryPlan → Bool
will_retry p = p.retryable && is_some p.delay_seconds

abbrev pub optional_seconds : Option Duration → JsonScalar
optional_seconds none = null
optional_seconds (some d) = float (finite (pos d))

abbrev pub optional_text : Option String → JsonScalar
optional_text none = null
optional_text (some s) = str s

abbrev pub count : ℕ → JsonScalar
count n = int (pos n)

-- isinstance(exception, OperationTimeoutError)
abbrev pub is_operation_timeout : Exception → Bool
is_operation_timeout (operation_timeout_error m s c) = true
is_operation_timeout _ = false

unfoldable pub attempt_status_for_exception : Exception → AttemptStatus
attempt_status_for_exception exception =
    if is_operation_timeout exception then AttemptStatus.timed_out else AttemptStatus.failed

unfoldable pub report_status_for_attempt_status : AttemptStatus → ExecutionStatus
report_status_for_attempt_status AttemptStatus.timed_out = ExecutionStatus.timed_out
report_status_for_attempt_status _ = ExecutionStatus.failed

unfoldable pub validation_success_metadata : ValidationResult → Metadata
validation_success_metadata r =
    ("validation_performed", bool true)
    ∷ ("validation_valid", bool true)
    ∷ ("validation_validator_name", str r.validator_name)
    ∷ ("validation_reason", null)
    ∷ []

-- Of the validator's name and the reason that the exception carries.
unfoldable pub validation_failure_metadata : String → String → Metadata
validation_failure_metadata validator_name reason =
    ("validation_performed", bool true)
    ∷ ("validation_valid", bool false)
    ∷ ("validation_validator_name", str validator_name)
    ∷ ("validation_reason", str reason)
    ∷ []

unfoldable pub no_validation_metadata : Metadata
no_validation_metadata =
    ("validation_performed", bool false)
    ∷ ("validation_valid", null)
    ∷ ("validation_validator_name", null)
    ∷ ("validation_reason", null)
    ∷ []

-- `metadata.update(self._validation_failure_metadata(exception))` if the exception is of that class.
unfoldable pub validation_details : Exception → Metadata → Metadata
unfolding validation_failure_metadata update
validation_details (validation_failed_error m name reason) metadata =
    update metadata (validation_failure_metadata name reason)
validation_details _ metadata = metadata

-- isinstance(exception, CircuitBreakerOpenError)
abbrev pub is_breaker_open : Exception → Bool
is_breaker_open (circuit_breaker_open_error m n s r) = true
is_breaker_open _ = false

unfoldable pub base_metadata : Option Metadata → Metadata
unfolding update no_validation_metadata
base_metadata validation_metadata =
    update (("fallback_used", bool false) ∷ ("circuit_breaker_open", bool false) ∷ [])
      (elim validation_metadata [ none ↦ no_validation_metadata | some m ↦ m ])

unfoldable pub primary_success_metadata : Metadata → Metadata
unfolding base_metadata
primary_success_metadata validation_metadata = base_metadata (some validation_metadata)

unfoldable pub primary_failure_metadata : Exception → RetryPlan → Metadata
unfolding base_metadata validation_details set_item update
primary_failure_metadata exception plan =
    update
      (validation_details exception
        (set_item "circuit_breaker_open" (bool (is_breaker_open exception)) (base_metadata none)))
      (("rate_limited", bool plan.rate_limited)
        ∷ ("rate_limit_retry_after_seconds", optional_seconds plan.retry_after_seconds)
        ∷ (
          "rate_limit_delay_seconds",
          if plan.rate_limited then optional_seconds plan.delay_seconds else null,
        )
        ∷ (
          "rate_limit_delay_source",
          if plan.rate_limited
              then elim plan.delay_source [ some s ↦ str (source_value s) | none ↦ null ]
              else null,
        )
        ∷ ("rate_limit_wait_exceeded", bool plan.max_wait_exceeded)
        ∷ [])

unfoldable pub fallback_success_metadata : {R : Type 0} → FallbackResult R → Metadata → Metadata
unfolding update failure_count
fallback_success_metadata result validation_metadata =
    update
      (("fallback_used", bool true)
        ∷ ("fallback_failed", bool false)
        ∷ ("fallback_candidate_name", str result.candidate_name)
        ∷ ("fallback_candidate_index", count result.candidate_index)
        ∷ ("fallback_failure_count", count (failure_count result))
        ∷ ("circuit_breaker_open", bool false)
        ∷ [])
      validation_metadata

-- The failures of a FallbackChainError, and its cause.
abbrev pub chain_failures : Exception → Failures
chain_failures (fallback_chain_error m fs) = fs
chain_failures _ = no_failures

chain_cause : Exception → Option Exception
unfolding final_failure
chain_cause (fallback_chain_error m fs) = final_failure fs
chain_cause e = some e

-- `isinstance(final_failure, ValidationFailedError)` and its branches.
chain_validation_metadata : Option Exception → Metadata
unfolding validation_failure_metadata no_validation_metadata
chain_validation_metadata (some (validation_failed_error m name reason)) =
    validation_failure_metadata name reason
chain_validation_metadata _ = no_validation_metadata

unfoldable pub fallback_failure_metadata : Exception → Metadata
unfolding update chain_cause chain_validation_metadata
fallback_failure_metadata exception =
    update
      (("fallback_used", bool true)
        ∷ ("fallback_failed", bool true)
        ∷ ("fallback_failure_count", count (length (failure_list (chain_failures exception))))
        ∷ ("circuit_breaker_open", bool (is_breaker_open exception))
        ∷ [])
      (chain_validation_metadata (chain_cause exception))

unfoldable pub rate_limit_summary_metadata : Bool → Duration → Bool → Metadata
rate_limit_summary_metadata encountered wait_seconds wait_exceeded =
    ("rate_limit_encountered", bool encountered)
    ∷ ("rate_limit_wait_seconds", float (finite (pos wait_seconds)))
    ∷ ("rate_limit_wait_exceeded", bool wait_exceeded)
    ∷ []

unfoldable pub merge_metadata : List Metadata → Metadata
unfolding update
merge_metadata items = merge [] items
  where
    merge : Metadata → List Metadata → Metadata
    merge metadata [] = metadata
    merge metadata (item ∷ rest) = merge (update metadata item) rest
