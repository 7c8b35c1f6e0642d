-- ===== src/Operation/Fallbacks/Failed/Reports.antt =====
-- What the report tells when the fallback chain of src/relprim/operation.py fails.
use relprim.Prelude.{ℕ, ◌+◌, true, false, some, [], ◌∷◌, length}
use relprim.Values.{Seconds, finite, float, scalar, Metadata, lit}
use relprim.Report.{ExecutionAttempt}
use relprim.Errors.{Exception, failure_list}
use relprim.Outcome.{lift, ◌>>=◌}
use relprim.Checks.{unchecked}
use relprim.Outcome.Safe.{Safe, bind-Safe, then-Safe, weaken-Safe, IsForeign, Anything}
use relprim.Report.Build.{from_exception}
use relprim.Report.Build.Foreign.{new_attempt-Safe, IsOf}
use relprim.CircuitBreaker.{Shared}
use relprim.Fallback.{FallbackChain}
use relprim.Events.{EventType}
use relprim.Operation.{AsyncOperation, Host}
use relprim.Operation.PlanMetadata.{
  attempt_status_for_exception, fallback_failure_metadata, chain_failures,
}
use relprim.Operation.Attempt.{emit_event, emit_some, emit_fallback_validation_failures}
use relprim.Operation.Attempt.Emits.{emit_some-Safe, emit_fallback_validation_failures-Safe}
use relprim.Operation.Progress.{Progress, Started, elapsed_seconds, add_attempt, conclude_failure}
use relprim.Operation.Progress.Reports.{conclude_failure-Safe}
use relprim.Operation.Failure.Reports.{attempt_not_succeeded}
use relprim.Operation.Fallbacks.Failed.{
  chain_payload, emit_chain_failure, failed_fallback, emit_fallback_failed, end_failed_chain,
  record_failed_fallback, fallback_failed,
}
use relprim.Operation.Reported.{Reported, IsSuccess, foreign-Reported}
use relprim.Operation.Fallbacks.Pending.{CanFallBack, finished, emit_twice}

module _ {E R : Type 0} (op : AsyncOperation E R) (host : Host (Shared E) R)
    (emits : (t : EventType) (m : Metadata) (w : Shared E)
      → Safe IsForeign Anything (emit_event op t m w).0)
    (started : Started) (p : Progress) (can : CanFallBack op p.attempts) where
  end_failed_chain-Safe :
      (exc : Exception) (d : Seconds) (a : ExecutionAttempt) (w : Shared E)
      → IsOf (length p.attempts + 1) (attempt_status_for_exception exc) true a
      → Safe
          (Reported op)
          (IsSuccess op)
          (end_failed_chain op host started p (length p.attempts + 1) exc d a w).0
  unfolding end_failed_chain emit_fallback_failed
  end_failed_chain-Safe exc d a w h =
      then-Safe (Reported op) (IsSuccess op) (foreign-Reported op)
        (emit_fallback_failed op host (length p.attempts + 1) exc d)
        (conclude_failure op host started (add_attempt a p) (attempt_status_for_exception exc)
          (fallback_failure_metadata exc)
          (lit "Operation '" ∷ lit op.name ∷ lit "' failed and fallback chain failed." ∷ []) exc)
        w (emit_twice op emits _ _ _ _ w)
        (λ t.
          conclude_failure-Safe op host emits started (add_attempt a p)
            (attempt_status_for_exception exc) (fallback_failure_metadata exc)
            (lit "Operation '" ∷ lit op.name ∷ lit "' failed and fallback chain failed." ∷ []) exc t
            (finished op false (attempt_status_for_exception exc) p.attempts a can h
              (attempt_not_succeeded exc)))

  emit_chain_failure-Safe :
      (n : ℕ) (chain : FallbackChain (Shared E) R) (exc : Exception) (w : Shared E)
      → Safe IsForeign Anything (emit_chain_failure op host n chain exc w).0
  unfolding emit_chain_failure
  emit_chain_failure-Safe n chain exc w =
      then-Safe IsForeign Anything (λ _ h. h)
        (emit_fallback_validation_failures op n chain.candidates
          (failure_list (chain_failures exc)))
        (emit_some op EventType.validation_failed (chain_payload op host n exc)) w
        (emit_fallback_validation_failures-Safe op emits n chain.candidates
          (failure_list (chain_failures exc)) w)
        (λ t. emit_some-Safe op emits _ (chain_payload op host n exc) t)

  failed_fallback-Safe :
      (n : ℕ) (at : Started) (exc : Exception) (d : Seconds)
      → Safe
          (Reported op)
          (IsOf n (attempt_status_for_exception exc) true)
          (failed_fallback op host n at exc d)
  unfolding failed_fallback
  failed_fallback-Safe n at exc d =
      weaken-Safe IsForeign (Reported op) (IsOf n (attempt_status_for_exception exc) true)
        (IsOf n (attempt_status_for_exception exc) true) (failed_fallback op host n at exc d)
        (new_attempt-Safe n (attempt_status_for_exception exc) at.at (scalar (float (finite d)))
          (some (from_exception exc (some false))) (unchecked (fallback_failure_metadata exc)) true)
        (foreign-Reported op) (λ _ x. x)

  record_failed_fallback-Safe :
      (at : Started) (chain : FallbackChain (Shared E) R) (exc : Exception) (d : Seconds)
      (w : Shared E)
      → Safe
          (Reported op)
          (IsSuccess op)
          (record_failed_fallback op host started p (length p.attempts + 1) at chain exc d w).0
  unfolding record_failed_fallback
  record_failed_fallback-Safe at chain exc d w =
      let n = length p.attempts + 1 in
      then-Safe (Reported op) (IsSuccess op) (foreign-Reported op)
        (emit_chain_failure op host n chain exc)
        (lift (failed_fallback op host n at exc d) >>= end_failed_chain op host started p n exc d) w
        (emit_chain_failure-Safe n chain exc w)
        (λ t.
          bind-Safe (Reported op) (IsOf n (attempt_status_for_exception exc) true) (IsSuccess op)
            (lift (failed_fallback op host n at exc d)) (end_failed_chain op host started p n exc d)
            t (failed_fallback-Safe n at exc d) (λ a h u. end_failed_chain-Safe exc d a u h))

  pub fallback_failed-Safe :
      (at : Started) (chain : FallbackChain (Shared E) R) (exc : Exception) (w : Shared E)
      → Safe
          (Reported op)
          (IsSuccess op)
          (fallback_failed op host started p (length p.attempts + 1) at chain exc w).0
  unfolding fallback_failed elapsed_seconds
  fallback_failed-Safe at chain exc w =
      bind-Safe (Reported op) Anything (IsSuccess op) (elapsed_seconds op host at.monotonic)
        (record_failed_fallback op host started p (length p.attempts + 1) at chain exc) w tt
        (λ d _ t. record_failed_fallback-Safe at chain exc d t)
