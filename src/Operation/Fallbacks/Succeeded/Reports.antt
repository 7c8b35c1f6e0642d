-- ===== src/Operation/Fallbacks/Succeeded/Reports.antt =====
-- What the report tells when the fallback chain of src/relprim/operation.py succeeds.
use relprim.Prelude.{ℕ, ◌+◌, refl, true, none, length}
use relprim.Values.{Seconds, finite, float, scalar, Metadata}
use relprim.Report.{AttemptStatus, ExecutionAttempt}
use relprim.Outcome.{lift}
use relprim.Checks.{unchecked}
use relprim.Outcome.Safe.{Safe, bind-Safe, then-Safe, weaken-Safe, IsForeign, Anything}
use relprim.Report.Build.Foreign.{new_attempt-Safe, IsOf}
use relprim.CircuitBreaker.{Shared}
use relprim.Fallback.{FallbackChain, FallbackResult}
use relprim.Events.{EventType}
use relprim.Operation.{AsyncOperation, Host}
use relprim.Operation.PlanMetadata.{fallback_success_metadata}
use relprim.Operation.Attempt.{emit_event, emit_some, emit_fallback_validation_failures}
use relprim.Operation.Attempt.Emits.{emit_some-Safe, emit_fallback_validation_failures-Safe}
use relprim.Operation.Progress.{Progress, Started, elapsed_seconds, add_attempt, conclude_success}
use relprim.Operation.Progress.Reports.{conclude_success-Safe}
use relprim.Operation.Fallbacks.Succeeded.{
  fallback_validation_payload, emit_fallback_succeeded, end_succeeded_chain, succeeded_fallback,
  record_succeeded_fallback, emit_candidate_events, time_succeeded_fallback,
}
use relprim.Operation.Reported.{Reported, IsSuccess, foreign-Reported}
use relprim.Operation.Fallbacks.Pending.{CanFallBack, finished, emit_twice}

module _ {E R : Type 0} (op : AsyncOperation E R) (host : Host (Shared E) R)
    (emits : (t : EventType) (m : Metadata) (w : Shared E)
      → Safe IsForeign Anything (emit_event op t m w).0)
    (started : Started) (p : Progress) (can : CanFallBack op p.attempts) where
  end_succeeded_chain-Safe :
      (metadata : Metadata) (value : R) (d : Seconds) (a : ExecutionAttempt) (w : Shared E)
      → IsOf (length p.attempts + 1) AttemptStatus.succeeded true a
      → Safe
          (Reported op)
          (IsSuccess op)
          (end_succeeded_chain op host started p (length p.attempts + 1) metadata value d a w).0
  unfolding end_succeeded_chain emit_fallback_succeeded
  end_succeeded_chain-Safe metadata value d a w h =
      then-Safe (Reported op) (IsSuccess op) (foreign-Reported op)
        (emit_fallback_succeeded op host (length p.attempts + 1) metadata d)
        (conclude_success op host started (add_attempt a p) metadata value) w
        (emit_twice op emits _ _ _ _ w)
        (λ t.
          conclude_success-Safe op host emits started (add_attempt a p) metadata value t
            (finished op true AttemptStatus.succeeded p.attempts a can h refl))

  succeeded_fallback-Safe :
      (n : ℕ) (at : Started) (metadata : Metadata) (d : Seconds)
      → Safe
          (Reported op)
          (IsOf n AttemptStatus.succeeded true)
          (succeeded_fallback op host n at metadata d)
  unfolding succeeded_fallback
  succeeded_fallback-Safe n at metadata d =
      weaken-Safe IsForeign (Reported op) (IsOf n AttemptStatus.succeeded true)
        (IsOf n AttemptStatus.succeeded true) (succeeded_fallback op host n at metadata d)
        (new_attempt-Safe n AttemptStatus.succeeded at.at (scalar (float (finite d))) none
          (unchecked metadata) true)
        (foreign-Reported op) (λ _ x. x)

  pub time_succeeded_fallback-Safe :
      (at : Started) (result : FallbackResult (R × Metadata)) (w : Shared E)
      → Safe
          (Reported op)
          (IsSuccess op)
          (time_succeeded_fallback op host started p (length p.attempts + 1) at result w).0
  unfolding time_succeeded_fallback elapsed_seconds record_succeeded_fallback
  time_succeeded_fallback-Safe at result w =
      let n = length p.attempts + 1 in
      let metadata = fallback_success_metadata result result.value.1 in
      bind-Safe (Reported op) Anything (IsSuccess op) (elapsed_seconds op host at.monotonic)
        (record_succeeded_fallback op host started p n at metadata result.value.0) w tt
        (λ d _ t.
          bind-Safe (Reported op) (IsOf n AttemptStatus.succeeded true) (IsSuccess op)
            (lift (succeeded_fallback op host n at metadata d))
            (end_succeeded_chain op host started p n metadata result.value.0 d) t
            (succeeded_fallback-Safe n at metadata d)
            (λ a h u. end_succeeded_chain-Safe metadata result.value.0 d a u h))

  pub emit_candidate_events-Safe :
      (n : ℕ) (chain : FallbackChain (Shared E) R) (result : FallbackResult (R × Metadata))
      (w : Shared E)
      → Safe IsForeign Anything (emit_candidate_events op host n chain result w).0
  unfolding emit_candidate_events
  emit_candidate_events-Safe n chain result w =
      let payload = fallback_validation_payload op host n result.candidate_name result.value.1 in
      then-Safe IsForeign Anything (λ _ h. h)
        (emit_fallback_validation_failures op n chain.candidates result.failures)
        (emit_some op EventType.validation_succeeded payload) w
        (emit_fallback_validation_failures-Safe op emits n chain.candidates result.failures w)
        (λ t. emit_some-Safe op emits _ payload t)
