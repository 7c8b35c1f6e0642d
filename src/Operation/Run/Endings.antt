-- ===== src/Operation/Run/Endings.antt =====
-- The branches of src/relprim/operation.py that end a run leave a complete report.
use relprim.Prelude.{
  ℕ, suc, ◌≡◌, ap, Bool, true, false, Option, none, some, List, [], ◌∷◌, is_some, length,
}
use relprim.Values.{Seconds, finite, float, scalar, Metadata, lit, number}
use relprim.Report.{AttemptStatus, ExecutionAttempt}
use relprim.Outcome.{lift}
use relprim.Checks.{unchecked}
use relprim.Outcome.Safe.{Safe, bind-Safe, then-Safe, weaken-Safe, IsForeign, Anything}
use relprim.Report.Build.Foreign.{new_attempt-Safe, IsOf}
use relprim.CircuitBreaker.{Shared}
use relprim.Fallback.{FallbackChain, should_fallback}
use relprim.Events.{EventType}
use relprim.Operation.{AsyncOperation, Host}
use relprim.Operation.PlanMetadata.{primary_success_metadata, attempt_status_for_exception}
use relprim.Operation.Attempt.{emit_event, emit_some}
use relprim.Operation.Attempt.Emits.{emit_some-Safe}
use relprim.Operation.Progress.{Progress, Started, elapsed_seconds, add_attempt, conclude_success}
use relprim.Operation.Progress.Reports.{conclude_success-Safe, conclude_failure-Safe}
use relprim.Operation.Failure.{Failed}
use relprim.Operation.Failure.Reports.{HasFailed}
use relprim.Operation.Fallbacks.Reports.{run_fallbacks-Safe}
use relprim.Operation.Fallbacks.Pending.{CanFallBack}
use relprim.Operation.Run.{
  validation_payload, end_primary, succeeded_attempt, record_primary, time_primary,
  primary_succeeded, give_up, fallback_if, fallback_or_give_up,
}
use relprim.Operation.Run.Rounds.{IsRound, succeeded, gave_up, can_fall_back}
use relprim.Operation.Reported.{IsFinished, Reported, IsSuccess, foreign-Reported}

module _ {E R : Type 0} (op : AsyncOperation E R) (host : Host (Shared E) R)
    (emits : (t : EventType) (m : Metadata) (w : Shared E)
      → Safe IsForeign Anything (emit_event op t m w).0) where
  end_primary-Safe :
      (started : Started) (n rounds : ℕ) (p : Progress) (value : R) (metadata : Metadata)
      (d : Seconds) (a : ExecutionAttempt) (w : Shared E)
      → IsRound op n (suc rounds) p.attempts
      → IsOf n AttemptStatus.succeeded false a
      → Safe (Reported op) (IsSuccess op) (end_primary op host started n p value metadata d a w).0
  unfolding end_primary
  end_primary-Safe started n rounds p value metadata d a w r h =
      then-Safe (Reported op) (IsSuccess op) (foreign-Reported op) (emit_event op _ _)
        (conclude_success op host started (add_attempt a p) metadata value) w (emits _ _ w)
        (λ t.
          conclude_success-Safe op host emits started (add_attempt a p) metadata value t
            (succeeded op n rounds p.attempts a r h))

  succeeded_attempt-Safe :
      (n : ℕ) (at : Started) (metadata : Metadata) (d : Seconds)
      → Safe
          (Reported op)
          (IsOf n AttemptStatus.succeeded false)
          (succeeded_attempt op host n at metadata d)
  unfolding succeeded_attempt
  succeeded_attempt-Safe n at metadata d =
      weaken-Safe IsForeign (Reported op) (IsOf n AttemptStatus.succeeded false)
        (IsOf n AttemptStatus.succeeded false) (succeeded_attempt op host n at metadata d)
        (new_attempt-Safe n AttemptStatus.succeeded at.at (scalar (float (finite d))) none
          (unchecked metadata) false)
        (foreign-Reported op) (λ _ x. x)

  time_primary-Safe :
      (started : Started) (n rounds : ℕ) (at : Started) (p : Progress) (value : R)
      (metadata : Metadata) (w : Shared E)
      → IsRound op n (suc rounds) p.attempts
      → Safe (Reported op) (IsSuccess op) (time_primary op host started n at p value metadata w).0
  unfolding time_primary record_primary elapsed_seconds
  time_primary-Safe started n rounds at p value metadata w r =
      bind-Safe (Reported op) Anything (IsSuccess op) (elapsed_seconds op host at.monotonic)
        (record_primary op host started n at p value metadata) w tt
        (λ d _ t.
          bind-Safe (Reported op) (IsOf n AttemptStatus.succeeded false) (IsSuccess op)
            (lift (succeeded_attempt op host n at metadata d))
            (end_primary op host started n p value metadata d) t
            (succeeded_attempt-Safe n at metadata d)
            (λ a h u. end_primary-Safe started n rounds p value metadata d a u r h))

  pub primary_succeeded-Safe :
      (started : Started) (n rounds : ℕ) (at : Started) (p : Progress) (value : R)
      (metadata : Metadata) (w : Shared E)
      → IsRound op n (suc rounds) p.attempts
      → Safe
          (Reported op)
          (IsSuccess op)
          (primary_succeeded op host started n at p value metadata w).0
  unfolding primary_succeeded
  primary_succeeded-Safe started n rounds at p value metadata w r =
      then-Safe (Reported op) (IsSuccess op) (foreign-Reported op)
        (emit_some op EventType.validation_succeeded (validation_payload op host n metadata))
        (time_primary op host started n at p value (primary_success_metadata metadata)) w
        (emit_some-Safe op emits _ (validation_payload op host n metadata) w)
        (λ t. time_primary-Safe started n rounds at p value (primary_success_metadata metadata) t r)

  give_up-Safe :
      (started : Started) (f : Failed) (w : Shared E)
      → IsFinished op false f.progress.attempts
      → Safe (Reported op) (IsSuccess op) (give_up op host started f w).0
  unfolding give_up
  give_up-Safe started f w h =
      conclude_failure-Safe op host emits started f.progress (attempt_status_for_exception f.exc)
        f.metadata
        (lit "Operation '"
          ∷ lit op.name
          ∷ lit "' failed after "
          ∷ number (length f.progress.attempts)
          ∷ lit " attempt(s)."
          ∷ [])
        f.exc w h

  fallback_if-Safe :
      (b : Bool) (chain : FallbackChain (Shared E) R) (started : Started) (f : Failed)
      (w : Shared E)
      → CanFallBack op f.progress.attempts
      → IsFinished op false f.progress.attempts
      → Safe (Reported op) (IsSuccess op) (fallback_if op host b chain started f w).0
  unfolding fallback_if
  fallback_if-Safe true chain started f w c h =
      run_fallbacks-Safe op host emits started f.progress c chain w
  fallback_if-Safe false chain started f w c h = give_up-Safe started f w h

  pub fallback_or_give_up-Safe :
      (o : Option (FallbackChain (Shared E) R)) (started : Started) (n rounds : ℕ)
      (attempts : List ExecutionAttempt) (f : Failed) (w : Shared E)
      → op.fallback_chain ≡ o
      → IsRound op n (suc rounds) attempts
      → HasFailed n attempts f
      → Safe (Reported op) (IsSuccess op) (fallback_or_give_up op host o started f w).0
  unfolding fallback_or_give_up
  fallback_or_give_up-Safe none started n rounds attempts f w e r x =
      give_up-Safe started f w (gave_up op n rounds attempts f r x)
  fallback_or_give_up-Safe (some chain) started n rounds attempts f w e r x =
      fallback_if-Safe (should_fallback chain.policy f.exc) chain started f w
        (can_fall_back op n rounds attempts f r x (ap is_some e))
        (gave_up op n rounds attempts f r x)
