-- ===== src/Operation/Attempt/Emits.antt =====
-- Events and sleeps of src/relprim/operation.py raise nothing but what sinks and sleepers raise.
use relprim.Prelude.{ℕ, Bool, true, false, Option, none, some, List, [], ◌∷◌, is_some}
use relprim.Values.{Duration, Metadata}
use relprim.Errors.{Exception}
use relprim.Outcome.{pure, ◌>>◌}
use relprim.Checks.{unchecked}
use relprim.Events.Delivery.{IsQuiet, emit-Safe}
use relprim.Outcome.Safe.{bind-Safe, Safe, then-Safe, IsForeign, Anything}
use relprim.CircuitBreaker.{Shared}
use relprim.Fallback.{FallbackCandidate}
use relprim.Events.{EventEmitter, emit, EventType}
use relprim.Operation.{AsyncOperation, Host}
use relprim.Operation.PlanMetadata.{RetryPlan, will_retry}
use relprim.Operation.Attempt.{
  emit_through, emit_event, emit_some, candidate_payload, emit_fallback_validation_failures,
  retry_payload, sleep_if, sleep_before_retry,
}

-- An emitter whose sinks and clock are quiet emits quietly.
emit_through-Safe :
    {E R : Type 0} (op : AsyncOperation E R) (o : Option (EventEmitter (Shared E)))
    → IsQuiet o
    → (t : EventType) (m : Metadata) (w : Shared E)
    → Safe IsForeign Anything (emit_through op o t m w).0
unfolding emit_through
emit_through-Safe op none q t m w = tt
emit_through-Safe op (some emitter) q t m w =
    bind-Safe IsForeign Anything Anything (emit emitter t op.name (unchecked m)) (λ _. pure tt) w
      (emit-Safe emitter t op.name (unchecked m) w q) (λ _ _ _. tt)

pub emit_event-Safe :
    {E R : Type 0} (op : AsyncOperation E R)
    → IsQuiet op.event_emitter
    → (t : EventType) (m : Metadata) (w : Shared E)
    → Safe IsForeign Anything (emit_event op t m w).0
unfolding emit_event
emit_event-Safe op quiet t m w = emit_through-Safe op op.event_emitter quiet t m w

module _ {E R : Type 0} (op : AsyncOperation E R)
    (emits : (t : EventType) (m : Metadata) (w : Shared E)
      → Safe IsForeign Anything (emit_event op t m w).0) where
  pub emit_some-Safe :
      (t : EventType) (o : Option Metadata) (w : Shared E)
      → Safe IsForeign Anything (emit_some op t o w).0
  unfolding emit_some
  emit_some-Safe t none w = tt
  emit_some-Safe t (some m) w = emits t m w

  pub emit_fallback_validation_failures-Safe :
      (n : ℕ) (cs : List (FallbackCandidate (Shared E) R)) (es : List Exception) (w : Shared E)
      → Safe IsForeign Anything (emit_fallback_validation_failures op n cs es w).0
  unfolding emit_fallback_validation_failures
  emit_fallback_validation_failures-Safe n [] es w = tt
  emit_fallback_validation_failures-Safe n (c ∷ cs) [] w = tt
  emit_fallback_validation_failures-Safe n (c ∷ cs) (e ∷ es) w =
      then-Safe IsForeign Anything (λ _ h. h)
        (emit_some op EventType.validation_failed (candidate_payload op n c.name e))
        (emit_fallback_validation_failures op n cs es) w
        (emit_some-Safe _ (candidate_payload op n c.name e) w)
        (λ t. emit_fallback_validation_failures-Safe n cs es t)

  module _ (host : Host (Shared E) R)
      (sleeps : (d : Duration) (w : Shared E)
        → Safe IsForeign Anything (host.environment.sleep d w).0) where
    sleep_if-Safe :
        (a b : Bool) (o : Option Duration) (n : ℕ) (plan : RetryPlan) (w : Shared E)
        → Safe IsForeign Anything (sleep_if op host a b o n plan w).0
    unfolding sleep_if
    sleep_if-Safe true true (some d) n plan w =
        then-Safe IsForeign Anything (λ _ h. h)
          (emit_event op EventType.retry_scheduled (retry_payload op host n plan d))
          (host.environment.sleep d >> pure d) w
          (emits EventType.retry_scheduled (retry_payload op host n plan d) w)
          (λ t.
            then-Safe IsForeign Anything (λ _ h. h) (host.environment.sleep d) (pure d) t
              (sleeps d t) (λ _. tt))
    sleep_if-Safe true true none n plan w = tt
    sleep_if-Safe true false o n plan w = tt
    sleep_if-Safe false b o n plan w = tt

    pub sleep_before_retry-Safe :
        (n : ℕ) (plan : RetryPlan) (w : Shared E)
        → Safe IsForeign Anything (sleep_before_retry op host n plan w).0
    unfolding sleep_before_retry
    sleep_before_retry-Safe n plan w =
        sleep_if-Safe (is_some op.retry_policy) (will_retry plan) plan.delay_seconds n plan w
