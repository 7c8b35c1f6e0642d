-- ===== src/Operation/Fallbacks/Reports.antt =====
-- The fallback branch of src/relprim/operation.py adds one attempt, the last, to the failures.
use relprim.Prelude.{◌+◌, length}
use relprim.Values.{Metadata}
use relprim.Outcome.{Outcome, returned, raised, interrupted}
use relprim.Outcome.Safe.{Safe, bind-Safe, then-Safe, IsForeign, Anything}
use relprim.CircuitBreaker.{Shared}
use relprim.Fallback.{FallbackChain, FallbackResult}
use relprim.Events.{EventType}
use relprim.Operation.{AsyncOperation, Host}
use relprim.Operation.Attempt.{emit_event}
use relprim.Operation.Progress.{Progress, Started, start_now}
use relprim.Operation.Fallbacks.Succeeded.{
  emit_candidate_events, time_succeeded_fallback, fallback_succeeded,
}
use relprim.Operation.Fallbacks.{
  start_payload, run_validated_chain, end_chain, try_chain, start_fallbacks, run_fallbacks,
}
use relprim.Operation.Reported.{Reported, IsSuccess, foreign-Reported}
use relprim.Operation.Fallbacks.Pending.{CanFallBack}
use relprim.Operation.Fallbacks.Failed.Reports.{fallback_failed-Safe}
use relprim.Operation.Fallbacks.Succeeded.Reports.{
  emit_candidate_events-Safe, time_succeeded_fallback-Safe,
}

module _ {E R : Type 0} (op : AsyncOperation E R) (host : Host (Shared E) R)
    (emits : (t : EventType) (m : Metadata) (w : Shared E)
      → Safe IsForeign Anything (emit_event op t m w).0)
    (started : Started) (p : Progress) (can : CanFallBack op p.attempts) where
  end_chain-Safe :
      (at : Started) (chain : FallbackChain (Shared E) R)
      (o : Outcome (FallbackResult (R × Metadata))) (w : Shared E)
      → Safe
          (Reported op)
          (IsSuccess op)
          (end_chain op host started p (length p.attempts + 1) at chain o w).0
  unfolding end_chain fallback_succeeded
  end_chain-Safe at chain (returned result) w =
      then-Safe (Reported op) (IsSuccess op) (foreign-Reported op)
        (emit_candidate_events op host (length p.attempts + 1) chain result)
        (time_succeeded_fallback op host started p (length p.attempts + 1) at result) w
        (emit_candidate_events-Safe op host emits started p can (length p.attempts + 1) chain result
          w)
        (λ t. time_succeeded_fallback-Safe op host emits started p can at result t)
  end_chain-Safe at chain (raised exc) w =
      fallback_failed-Safe op host emits started p can at chain exc w
  end_chain-Safe at chain (interrupted i) w = tt

  start_fallbacks-Safe :
      (chain : FallbackChain (Shared E) R) (at : Started) (w : Shared E)
      → Safe (Reported op) (IsSuccess op) (start_fallbacks op host started p chain at w).0
  unfolding start_fallbacks try_chain
  start_fallbacks-Safe chain at w =
      then-Safe (Reported op) (IsSuccess op) (foreign-Reported op)
        (emit_event op EventType.fallback_started (start_payload op host p))
        (try_chain op host started p (length p.attempts + 1) at chain) w
        (emits EventType.fallback_started (start_payload op host p) w)
        (λ t.
          end_chain-Safe at chain (run_validated_chain op host chain t).0
            (run_validated_chain op host chain t).1)

  pub run_fallbacks-Safe :
      (chain : FallbackChain (Shared E) R) (w : Shared E)
      → Safe (Reported op) (IsSuccess op) (run_fallbacks op host started p chain w).0
  unfolding run_fallbacks start_now
  run_fallbacks-Safe chain w =
      bind-Safe (Reported op) Anything (IsSuccess op) (start_now op host)
        (start_fallbacks op host started p chain) w tt (λ at _ t. start_fallbacks-Safe chain at t)
