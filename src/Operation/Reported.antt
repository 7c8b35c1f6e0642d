-- ===== src/Operation/Reported.antt =====
-- What the reports of an operation tell: the attempts are numbered in order, all but the last are
-- failed primary attempts, and there are no more of them than the retry policy allows.
use relprim.Prelude.{
  ℕ, ◌+◌, ◌≤◌, ◌≡◌, ◌∙◌, Bool, true, false, not, ◌&&◌, List, [], ◌∷◌, ◌++◌, arith, if◌then◌else◌,
  is_some, length, All, All-append,
}
use relprim.Report.{ExecutionAttempt, ExecutionReport, attempt_succeeded, execution_succeeded}
use relprim.Errors.{
  Exception, external, value_error, type_error, runtime_error, overflow_error, timeout_error,
  retry_error, operation_timeout_error, operation_execution_error, fallback_chain_error,
  circuit_breaker_open_error, validation_failed_error, idempotency_reentry_error,
  retry_after_extraction_error, sqlite_schema_error,
}
use relprim.Outcome.Safe.{IsForeign}
use relprim.Operation.{max_attempts, AsyncOperation, OperationResult}

-- The attempt numbers go on from n.
abbrev pub Numbered : ℕ → List ExecutionAttempt → Type 0
Numbered n [] = Unit {0}
Numbered n (a ∷ rest) = (a.attempt_number ≡ n + 1) × Numbered (n + 1) rest

abbrev pub IsPrimaryFailure : ExecutionAttempt → Type 0
IsPrimaryFailure a = (attempt_succeeded a.status ≡ false) × (a.fallback ≡ false)

-- The attempts so far, none of which has ended the operation.
pub record IsPending (attempts : List ExecutionAttempt) : Type 0 where
  pub numbered : Numbered 0 attempts
  pub failures : All IsPrimaryFailure attempts

module _ {E R : Type 0} (op : AsyncOperation E R) where
  -- The attempts of an operation that has ended, with success or not.
  pub record IsFinished (good : Bool) (attempts : List ExecutionAttempt) : Type 0 where
    pub earlier : List ExecutionAttempt
    pub last : ExecutionAttempt
    pub split : attempts ≡ earlier ++ last ∷ []
    pub pending : IsPending earlier
    pub number : last.attempt_number ≡ length earlier + 1
    pub ended : attempt_succeeded last.status ≡ good
    pub bounded : length earlier + (if last.fallback then 0 else 1) ≤ max_attempts op
    pub configured : last.fallback && not (is_some op.fallback_chain) ≡ false

  abbrev pub IsComplete : Bool → ExecutionReport → Type 0
  IsComplete good report =
      IsFinished good report.attempts × (execution_succeeded report.status ≡ good)

  -- Of an exception that the run raises: the report of an OperationExecutionError is complete.
  abbrev pub Reported : Exception → Type 0
  Reported (operation_execution_error m report c) = IsComplete false report
  Reported _ = Unit {0}

  abbrev pub IsSuccess : OperationResult R → Type 0
  IsSuccess result = IsComplete true result.report

  pub foreign-Reported : (e : Exception) → IsForeign e → Reported e
  foreign-Reported (external c m) h = tt
  foreign-Reported (value_error m) h = tt
  foreign-Reported (type_error m) h = tt
  foreign-Reported (runtime_error m) h = tt
  foreign-Reported (overflow_error m) h = tt
  foreign-Reported (timeout_error m) h = tt
  foreign-Reported (retry_error m n c) h = tt
  foreign-Reported (operation_timeout_error m s c) h = tt
  foreign-Reported (operation_execution_error m r c) h = absurd h
  foreign-Reported (fallback_chain_error m fs) h = tt
  foreign-Reported (circuit_breaker_open_error m n s r) h = tt
  foreign-Reported (validation_failed_error m v r) h = tt
  foreign-Reported (idempotency_reentry_error m k) h = tt
  foreign-Reported (retry_after_extraction_error m e c) h = tt
  foreign-Reported (sqlite_schema_error m) h = tt

Numbered-append :
    (n : ℕ) (attempts : List ExecutionAttempt) (a : ExecutionAttempt)
    → Numbered n attempts
    → a.attempt_number ≡ n + length attempts + 1
    → Numbered n (attempts ++ a ∷ [])
Numbered-append n [] a h e = (e ∙ omega arith, tt)
Numbered-append n (b ∷ rest) a h e = (h.0, Numbered-append (n + 1) rest a h.1 (e ∙ omega arith))

pub IsPending-append :
    (attempts : List ExecutionAttempt) (a : ExecutionAttempt)
    → IsPending attempts
    → a.attempt_number ≡ length attempts + 1
    → IsPrimaryFailure a
    → IsPending (attempts ++ a ∷ [])
IsPending-append attempts a h n f = record {
  numbered = Numbered-append 0 attempts a h.numbered (n ∙ omega arith);
  failures = All-append IsPrimaryFailure attempts (a ∷ []) h.failures (f, tt);
}
