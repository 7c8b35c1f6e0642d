-- ===== src/Report.antt =====
-- The data of src/relprim/report.py: attempts and reports, and their read-only properties. Their
-- checked construction is in Report/Build.antt.
pub mod Build
use relprim.Prelude.{
  ℕ, ◌+◌, ◌-◌, Bool, true, false, Option, none, some, List, [], ◌∷◌, String, length, last?, ltb,
  if◌then◌else◌,
}
use mathlib.Core.List.{reverse}
use relprim.Values.{Duration, Metadata, Datetime, Message}

pub data ExecutionStatus : Type 0 where
  succeeded failed timed_out : ExecutionStatus

pub data AttemptStatus : Type 0 where
  succeeded failed timed_out : AttemptStatus

pub record ExecutionError : Type 0 where
  pub type : String
  pub message : Message
  pub module_name : Option String
  pub retryable : Option Bool

pub record ExecutionAttempt : Type 0 where
  pub attempt_number : ℕ
  pub status : AttemptStatus
  pub started_at : Datetime
  pub duration_seconds : Duration
  pub error : Option ExecutionError
  pub metadata : Metadata
  pub fallback : Bool

pub record ExecutionReport : Type 0 where
  pub operation_name : String
  pub status : ExecutionStatus
  pub started_at : Datetime
  pub duration_seconds : Duration
  pub attempts : List ExecutionAttempt
  pub metadata : Metadata

-- `status is AttemptStatus.SUCCEEDED`
abbrev pub attempt_succeeded : AttemptStatus → Bool
attempt_succeeded AttemptStatus.succeeded = true
attempt_succeeded AttemptStatus.failed = false
attempt_succeeded AttemptStatus.timed_out = false

-- `status is ExecutionStatus.SUCCEEDED`
abbrev pub execution_succeeded : ExecutionStatus → Bool
execution_succeeded ExecutionStatus.succeeded = true
execution_succeeded ExecutionStatus.failed = false
execution_succeeded ExecutionStatus.timed_out = false

unfoldable pub attempt_count : ExecutionReport → ℕ
attempt_count r = length r.attempts

-- sum(1 for attempt in attempts if not attempt.fallback)
unfoldable pub primary_attempts : List ExecutionAttempt → ℕ
primary_attempts [] = 0
primary_attempts (a ∷ rest) = (if a.fallback then 0 else 1) + primary_attempts rest

-- max(0, primary_attempts - 1): subtraction on ℕ stops at 0.
unfoldable pub retry_count : ExecutionReport → ℕ
unfolding primary_attempts
retry_count r = primary_attempts r.attempts - 1

unfoldable pub retried : ExecutionReport → Bool
unfolding retry_count
retried r = ltb 0 (retry_count r)

unfoldable pub last_attempt : ExecutionReport → Option ExecutionAttempt
last_attempt r = last? r.attempts

unfoldable pub first_error : List ExecutionAttempt → Option ExecutionError
first_error [] = none
first_error (a ∷ rest) = elim a.error [ some e ↦ some e | none ↦ first_error rest ]

unfoldable pub last_error : ExecutionReport → Option ExecutionError
unfolding first_error
last_error r = first_error (reverse r.attempts)
