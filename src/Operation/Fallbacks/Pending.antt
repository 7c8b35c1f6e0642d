-- ===== src/Operation/Fallbacks/Pending.antt =====
-- The attempts that the fallback branch of src/relprim/operation.py starts from and ends with.
use relprim.Prelude.{
  ◌+◌, ◌≤◌, ◌≡◌, refl, ap, ◌∙◌, Bool, true, List, [], ◌∷◌, ◌++◌, arith, is_some, length,
}
use relprim.Values.{Metadata}
use relprim.Report.{AttemptStatus, ExecutionAttempt, attempt_succeeded}
use relprim.Outcome.{◌>>◌}
use relprim.Outcome.Safe.{Safe, then-Safe, IsForeign, Anything}
use relprim.Report.Build.Foreign.{IsOf}
use relprim.CircuitBreaker.{Shared}
use relprim.Events.{EventType}
use relprim.Operation.{AsyncOperation, max_attempts}
use relprim.Operation.Attempt.{emit_event}
use relprim.Operation.Reported.{IsPending, IsFinished}

module _ {E R : Type 0} (op : AsyncOperation E R) where
  -- What the branch starts from: failures, no more than there may be attempts, and a chain.
  pub record CanFallBack (attempts : List ExecutionAttempt) : Type 0 where
    pub pending : IsPending attempts
    pub bounded : length attempts ≤ max_attempts op
    pub configured : is_some op.fallback_chain ≡ true

  pub finished :
      (good : Bool) (status : AttemptStatus) (attempts : List ExecutionAttempt)
      (a : ExecutionAttempt)
      → CanFallBack attempts
      → IsOf (length attempts + 1) status true a
      → attempt_succeeded status ≡ good
      → IsFinished op good (attempts ++ a ∷ [])
  finished good status attempts a c (n, s, f) e = record {
    earlier = attempts;
    last = a;
    split = refl;
    pending = c.pending;
    number = n;
    ended = ap attempt_succeeded s ∙ e;
    bounded = rw f (ground (arith, c.bounded));
    configured = rw (f, c.configured) refl;
  }

module _ {E R : Type 0} (op : AsyncOperation E R)
    (emits : (t : EventType) (m : Metadata) (w : Shared E)
      → Safe IsForeign Anything (emit_event op t m w).0) where
  pub emit_twice :
      (t u : EventType) (m n : Metadata) (w : Shared E)
      → Safe IsForeign Anything ((emit_event op t m >> emit_event op u n) w).0
  emit_twice t u m n w =
      then-Safe IsForeign Anything (λ _ h. h) (emit_event op t m) (emit_event op u n) w
        (emits t m w) (λ x. emits u n x)
