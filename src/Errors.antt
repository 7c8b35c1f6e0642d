-- ===== src/Errors.antt =====
-- src/relprim/errors.py: the exceptions of the package and the built-in ones it raises, their
-- classes, and `isinstance` against a tuple of classes.
use relprim.Prelude.{ℕ, Bool, Option, none, some, List, [], ◌∷◌, ◌++◌, String, ℕ_discrete, any}
use mathlib.Core.Bool.{decide}
use relprim.Values.{Seconds, Message}
use relprim.Report.{ExecutionReport}

-- src/relprim/circuit_breaker.py
pub data CircuitBreakerState : Type 0 where
  closed open_state half_open : CircuitBreakerState

-- Classes of exceptions: the built-in ones that matter, the package's, and any other by number.
pub data ExceptionType : Type 0 where
  exception os_error timeout_error arithmetic_error overflow_error : ExceptionType
  value_error type_error runtime_error : ExceptionType
  relprim_error retry_error operation_timeout_error operation_execution_error : ExceptionType
  fallback_chain_error circuit_breaker_open_error validation_failed_error : ExceptionType
  idempotency_reentry_error retry_after_extraction_error sqlite_schema_error : ExceptionType
  other_type : ℕ → ExceptionType

-- A class that is not of this package, with the classes that it inherits from.
pub record ExternalClass : Type 0 where
  pub id : ℕ
  pub class_name : String
  pub module_name : String
  pub bases : List ExceptionType

mutual
  pub data Exception : Type 0 where
    external : ExternalClass → Message → Exception
    value_error type_error runtime_error overflow_error timeout_error : Message → Exception
    retry_error : Message → ℕ → Exception → Exception
    operation_timeout_error : Message → Seconds → Cause → Exception
    operation_execution_error : Message → ExecutionReport → Exception → Exception
    fallback_chain_error : Message → Failures → Exception
    circuit_breaker_open_error : Message → String → CircuitBreakerState → Option Seconds → Exception
    validation_failed_error : Message → String → String → Exception
    idempotency_reentry_error : Message → String → Exception
    retry_after_extraction_error : Message → Exception → Cause → Exception
    sqlite_schema_error : Message → Exception

  -- An optional cause.
  pub data Cause : Type 0 where
    no_cause : Cause
    caused_by : Exception → Cause

  -- A tuple of exceptions.
  pub data Failures : Type 0 where
    no_failures : Failures
    failure : Exception → Failures → Failures

abbrev pub failures_of : List Exception → Failures
failures_of [] = no_failures
failures_of (e ∷ es) = failure e (failures_of es)

abbrev pub failure_list : Failures → List Exception
failure_list no_failures = []
failure_list (failure e fs) = e ∷ failure_list fs

-- FallbackChainError.cause: the last failure, if there is one.
unfoldable pub final_failure : Failures → Option Exception
final_failure no_failures = none
final_failure (failure e no_failures) = some e
final_failure (failure e (failure e' fs)) = final_failure (failure e' fs)

-- The classes of an instance: its own, and those above it.
unfoldable pub classes : Exception → List ExceptionType
classes (external c m) = ExceptionType.other_type c.id ∷ c.bases ++ ExceptionType.exception ∷ []
classes (value_error m) = ExceptionType.value_error ∷ ExceptionType.exception ∷ []
classes (type_error m) = ExceptionType.type_error ∷ ExceptionType.exception ∷ []
classes (runtime_error m) = ExceptionType.runtime_error ∷ ExceptionType.exception ∷ []
classes (overflow_error m) =
    ExceptionType.overflow_error ∷ ExceptionType.arithmetic_error ∷ ExceptionType.exception ∷ []
classes (timeout_error m) =
    ExceptionType.timeout_error ∷ ExceptionType.os_error ∷ ExceptionType.exception ∷ []
classes (retry_error m n e) =
    ExceptionType.retry_error ∷ ExceptionType.relprim_error ∷ ExceptionType.exception ∷ []
classes (operation_timeout_error m s c) =
    ExceptionType.operation_timeout_error ∷ ExceptionType.relprim_error ∷ ExceptionType.exception
    ∷ []
classes (operation_execution_error m r c) =
    ExceptionType.operation_execution_error ∷ ExceptionType.relprim_error ∷ ExceptionType.exception
    ∷ []
classes (fallback_chain_error m fs) =
    ExceptionType.fallback_chain_error ∷ ExceptionType.relprim_error ∷ ExceptionType.exception ∷ []
classes (circuit_breaker_open_error m n s r) =
    ExceptionType.circuit_breaker_open_error ∷ ExceptionType.relprim_error ∷ ExceptionType.exception
    ∷ []
classes (validation_failed_error m v r) =
    ExceptionType.validation_failed_error ∷ ExceptionType.relprim_error ∷ ExceptionType.exception
    ∷ []
classes (idempotency_reentry_error m k) =
    ExceptionType.idempotency_reentry_error ∷ ExceptionType.relprim_error ∷ ExceptionType.exception
    ∷ []
classes (retry_after_extraction_error m e c) =
    ExceptionType.retry_after_extraction_error ∷ ExceptionType.relprim_error
    ∷ ExceptionType.exception ∷ []
classes (sqlite_schema_error m) =
    ExceptionType.sqlite_schema_error ∷ ExceptionType.relprim_error ∷ ExceptionType.exception ∷ []

pub ExceptionType-discrete : Discrete ExceptionType
ExceptionType-discrete = hlevel ℕ_discrete

-- isinstance(exception, types)
unfoldable pub is_instance : Exception → List ExceptionType → Bool
unfolding classes ExceptionType-discrete ℕ_discrete decide
is_instance e types = any (λ t. any (λ c. decide (ExceptionType-discrete c t)) (classes e)) types
