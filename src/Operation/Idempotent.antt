-- ===== src/Operation/Idempotent.antt =====
-- src/relprim/operation.py: `run` of an operation with an idempotency policy.
pub mod Marked
pub mod Replayed
mod Examples
use relprim.Prelude.{ℕ, String, Bool, true, Option, none, some, [], ◌∷◌}
use relprim.Prelude.Int.{pos}
use relprim.Values.{finite, bool, float, str, scalar, Metadata}
use relprim.Outcome.{Outcome, returned, bind_outcome}
use relprim.Checks.{unchecked}
use relprim.Prelude.Dict.{update}
use relprim.Report.Build.{new_report}
use relprim.CircuitBreaker.{Shared}
use relprim.Idempotency.{IdempotencyStatus, IdempotencyResult, IdempotencyPolicy, cache_hit}
use relprim.Idempotency.Execute.{Site, run_policy}
use relprim.Operation.{AsyncOperation, Host, OperationResult}
use relprim.Operation.Run.{run_without_idempotency}

-- IdempotencyStatus.value
abbrev pub status_value : IdempotencyStatus → String
status_value IdempotencyStatus.executed = "executed"
status_value IdempotencyStatus.joined = "joined"
status_value IdempotencyStatus.replayed = "replayed"

-- What the metadata is updated with.
abbrev pub idempotency_metadata : IdempotencyStatus → Bool → Metadata
idempotency_metadata status hit =
    ("idempotency_enabled", bool true)
    ∷ ("idempotency_status", str (status_value status))
    ∷ ("idempotency_cache_hit", bool hit)
    ∷ []

-- An AsyncOperation with its `_idempotency_policy`, over the arguments A of its calls.
pub record IdempotentOperation (A E R : Type 0) : Type 0 where
  pub operation : AsyncOperation E R
  pub idempotency_policy : Option (IdempotencyPolicy A)

module _ {R : Type 0} where
  -- `_operation_result_with_idempotency_metadata`
  unfoldable pub with_idempotency_metadata :
      IdempotencyResult (OperationResult R) → Outcome (OperationResult R)
  unfolding update cache_hit
  with_idempotency_metadata r =
      let original = r.value.report in
      bind_outcome
        (new_report original.operation_name original.status original.started_at
          (scalar (float (finite (pos original.duration_seconds)))) original.attempts
          (unchecked (update original.metadata (idempotency_metadata r.status (cache_hit r)))))
        λ report. returned (record { value = r.value.value; report = report })

module _ {E R : Type 0} where
  -- The end of `run`, from that of the policy.
  abbrev pub with_result :
      Option (Outcome (IdempotencyResult (OperationResult R)) × Shared E)
      → Option (Outcome (OperationResult R) × Shared E)
  with_result none = none
  with_result (some (o, s)) = some (bind_outcome o with_idempotency_metadata, s)

module _ {A E R : Type 0} where
  unfoldable pub with_idempotency :
      IdempotencyPolicy A → IdempotentOperation A E R → IdempotentOperation A E R
  with_idempotency policy op = record op { idempotency_policy = some policy }

  abbrev pub by_policy :
      ℕ
      → Host (Shared E) R
      → Site (OperationResult R) (Shared E)
      → AsyncOperation E R
      → Option (IdempotencyPolicy A)
      → A
      → Option ℕ
      → Shared E
      → Option (Outcome (OperationResult R) × Shared E)
  by_policy rounds host site op none arguments task s = some (run_without_idempotency op host s)
  by_policy rounds host site op (some policy) arguments task s =
      with_result (run_policy site rounds policy arguments task (run_without_idempotency op host) s)

  -- `run`, by the rounds that the loop of the store may take.
  unfoldable pub run :
      ℕ
      → Host (Shared E) R
      → Site (OperationResult R) (Shared E)
      → IdempotentOperation A E R
      → A
      → Option ℕ
      → Shared E
      → Option (Outcome (OperationResult R) × Shared E)
  run rounds host site op arguments task s =
      by_policy rounds host site op.operation op.idempotency_policy arguments task s
