-- ===== src/Operation/Fallbacks.antt =====
-- The fallback branch of `_run_without_idempotency` in src/relprim/operation.py.
pub mod Pending
pub mod Failed
pub mod Succeeded
pub mod Reports
use relprim.Prelude.{ℕ, ◌+◌, [], ◌∷◌, length}
use relprim.Values.{Metadata}
use relprim.Outcome.{Outcome, returned, raised, interrupted, Action, lift, ◌>>=◌, ◌>>◌}
use relprim.CircuitBreaker.{Shared}
use relprim.Fallback.{FallbackChain, FallbackResult, run}
use relprim.Events.{EventType}
use relprim.Operation.{AsyncOperation, Host, OperationResult}
use relprim.Operation.PlanMetadata.{count}
use relprim.Operation.Attempt.{emit_event, validated_fallback_chain}
use relprim.Operation.Progress.{Progress, Started, start_now}
use relprim.Operation.Fallbacks.Failed.{fallback_failed}
use relprim.Operation.Fallbacks.Succeeded.{fallback_succeeded}

module _ {E R : Type 0} (op : AsyncOperation E R) (host : Host (Shared E) R) where
  -- `await self._validated_fallback_chain(fallback_chain).run(*args, **kwargs)`
  run_validated_chain :
      FallbackChain (Shared E) R → Action (Shared E) (FallbackResult (R × Metadata))
  unfolding validated_fallback_chain run
  run_validated_chain chain =
      lift (validated_fallback_chain op chain) >>= λ validated. run validated

  -- By how the chain ends.
  end_chain :
      Started
      → Progress
      → ℕ
      → Started
      → FallbackChain (Shared E) R
      → Outcome (FallbackResult (R × Metadata))
      → Action (Shared E) (OperationResult R)
  unfolding fallback_failed fallback_succeeded
  end_chain started progress attempt_number fallback_started chain (returned result) =
      fallback_succeeded op host started progress attempt_number fallback_started chain result
  end_chain started progress attempt_number fallback_started chain (raised exc) =
      fallback_failed op host started progress attempt_number fallback_started chain exc
  end_chain started progress attempt_number fallback_started chain (interrupted i) =
      lift (interrupted i)

  -- The `try` around the chain.
  try_chain :
      Started
      → Progress
      → ℕ
      → Started
      → FallbackChain (Shared E) R
      → Action (Shared E) (OperationResult R)
  unfolding run_validated_chain end_chain
  try_chain started progress attempt_number fallback_started chain w =
      let (o, w') = run_validated_chain chain w in
      end_chain started progress attempt_number fallback_started chain o w'

  start_payload : Progress → Metadata
  start_payload progress =
      ("attempt_number", count (length progress.attempts + 1))
      ∷ ("after_primary_attempts", count (length progress.attempts))
      ∷ []

  start_fallbacks :
      Started
      → Progress
      → FallbackChain (Shared E) R
      → Started
      → Action (Shared E) (OperationResult R)
  unfolding emit_event try_chain start_payload
  start_fallbacks started progress chain fallback_started =
      emit_event op EventType.fallback_started (start_payload progress)
      >> try_chain started progress (length progress.attempts + 1) fallback_started chain

  unfoldable pub run_fallbacks :
      Started → Progress → FallbackChain (Shared E) R → Action (Shared E) (OperationResult R)
  unfolding start_now start_fallbacks
  run_fallbacks started progress chain =
      start_now op host >>= start_fallbacks started progress chain
