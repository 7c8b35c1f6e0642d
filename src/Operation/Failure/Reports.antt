-- ===== src/Operation/Failure/Reports.antt =====
-- A failed primary attempt in src/relprim/operation.py adds one failure to the attempts.
use relprim.Prelude.{
  ℕ, ◌≡◌, refl, ap, ◌∙◌, inl, inr, Bool, true, false, some, List, [], ◌∷◌, ◌++◌, Bool-cases,
}
use relprim.Values.{Seconds, finite, float, scalar, Metadata}
use relprim.Report.{ExecutionAttempt, attempt_succeeded}
use relprim.Errors.{Exception}
use relprim.Outcome.{Outcome, returned, raised, interrupted, pure, lift, ◌>>=◌}
use relprim.Checks.{unchecked}
use mathlib.Core.Path.{subst}
use relprim.Outcome.Safe.{Safe, bind-Safe, then-Safe, IsForeign, Anything}
use relprim.Report.Build.Foreign.{new_attempt-Safe, IsOf}
use relprim.CircuitBreaker.{Shared}
use relprim.Events.{EventType}
use relprim.Operation.{AsyncOperation, Host}
use relprim.Operation.PlanMetadata.{
  RetryPlan, is_operation_timeout, attempt_status_for_exception, primary_failure_metadata,
}
use relprim.Operation.Attempt.{emit_event, emit_some}
use relprim.Operation.Attempt.Emits.{emit_some-Safe}
use relprim.Operation.Progress.{Progress, Started, elapsed_seconds}
use relprim.Report.Build.{from_exception}
use relprim.Operation.Plan.{retry_plan_for_exception}
use relprim.Operation.Plan.Foreign.{retry_plan_for_exception-Foreign}
use relprim.Operation.Failure.{
  is_extraction_error, end_planning, rate_limit_payload, Failed, plan_failure, extraction_failed,
  wait_exceeded_payload, emit_rate_limit, note_if, validation_payload, rejection_payload,
  note_rate_limit, emit_failure_details, announce_attempt, failed_attempt, record_failed_attempt,
  time_failed_attempt, handle_planned, handle_failure, limited,
}
use relprim.Operation.Reported.{IsPrimaryFailure}

pub attempt_not_succeeded :
    (e : Exception) → attempt_succeeded (attempt_status_for_exception e) ≡ false
unfolding attempt_status_for_exception
attempt_not_succeeded e = elim (Bool-cases (is_operation_timeout e)) [
  | inl h ↦ rw h refl
  | inr h ↦ rw h refl
]

-- The handler has added the failed attempt with the number given.
pub record HasFailed (n : ℕ) (before : List ExecutionAttempt) (f : Failed) : Type 0 where
  pub attempt : ExecutionAttempt
  pub added : f.progress.attempts ≡ before ++ attempt ∷ []
  pub number : attempt.attempt_number ≡ n
  pub failure : IsPrimaryFailure attempt

module _ {E R : Type 0} (op : AsyncOperation E R) (host : Host (Shared E) R)
    (emits : (t : EventType) (m : Metadata) (w : Shared E)
      → Safe IsForeign Anything (emit_event op t m w).0) where
  emit_rate_limit-Safe :
      (n : ℕ) (exc : Exception) (plan : RetryPlan) (w : Shared E)
      → Safe IsForeign Anything (emit_rate_limit op host n exc plan w).0
  unfolding emit_rate_limit
  emit_rate_limit-Safe n exc plan w =
      then-Safe IsForeign Anything (λ _ h. h)
        (emit_event op EventType.rate_limit_detected (rate_limit_payload op host n exc plan))
        (emit_some op EventType.rate_limit_wait_exceeded (wait_exceeded_payload op host n plan)) w
        (emits EventType.rate_limit_detected (rate_limit_payload op host n exc plan) w)
        (λ t. emit_some-Safe op emits _ (wait_exceeded_payload op host n plan) t)

  note_if-Safe :
      (b : Bool) (n : ℕ) (exc : Exception) (plan : RetryPlan) (p : Progress) (w : Shared E)
      → Safe IsForeign (λ q. q.attempts ≡ p.attempts) (note_if op host b n exc plan p w).0
  unfolding note_if
  note_if-Safe false n exc plan p w = refl
  note_if-Safe true n exc plan p w =
      then-Safe IsForeign (λ q. q.attempts ≡ p.attempts) (λ _ x. x)
        (emit_rate_limit op host n exc plan) (pure (limited op host plan p)) w
        (emit_rate_limit-Safe n exc plan w) (λ _. refl)

  emit_failure_details-Safe :
      (n : ℕ) (exc : Exception) (w : Shared E)
      → Safe IsForeign Anything (emit_failure_details op host n exc w).0
  unfolding emit_failure_details
  emit_failure_details-Safe n exc w =
      then-Safe IsForeign Anything (λ _ h. h)
        (emit_some op EventType.validation_failed (validation_payload op host n exc))
        (emit_some op EventType.circuit_breaker_rejected (rejection_payload op host n exc)) w
        (emit_some-Safe op emits _ (validation_payload op host n exc) w)
        (λ t. emit_some-Safe op emits _ (rejection_payload op host n exc) t)

  announce_attempt-Safe :
      (n : ℕ) (d : Seconds) (exc : Exception) (plan : RetryPlan) (p : Progress)
      (a : ExecutionAttempt) (w : Shared E)
      → IsOf n (attempt_status_for_exception exc) false a
      → Safe IsForeign (HasFailed n p.attempts) (announce_attempt op host n d exc plan p a w).0
  unfolding announce_attempt
  announce_attempt-Safe n d exc plan p a w h =
      then-Safe IsForeign (HasFailed n p.attempts) (λ _ x. x) (emit_event op _ _) (pure _) w
        (emits _ _ w)
        (λ _. record {
          attempt = a;
          added = refl;
          number = h.0;
          failure = (ap attempt_succeeded h.1 ∙ attempt_not_succeeded exc, h.2);
        })

  failed_attempt-Safe :
      (n : ℕ) (started : Started) (d : Seconds) (exc : Exception) (plan : RetryPlan)
      → Safe IsForeign
          (IsOf n (attempt_status_for_exception exc) false)
          (failed_attempt op host n started d exc plan)
  unfolding failed_attempt
  failed_attempt-Safe n started d exc plan =
      new_attempt-Safe n (attempt_status_for_exception exc) started.at (scalar (float (finite d)))
        (some (from_exception exc (some plan.retryable)))
        (unchecked (primary_failure_metadata exc plan)) false

  record_failed_attempt-Safe :
      (n : ℕ) (started : Started) (exc : Exception) (plan : RetryPlan) (p : Progress) (d : Seconds)
      (w : Shared E)
      → Safe IsForeign
          (HasFailed n p.attempts)
          (record_failed_attempt op host n started exc plan p d w).0
  unfolding record_failed_attempt
  record_failed_attempt-Safe n started exc plan p d w =
      then-Safe IsForeign (HasFailed n p.attempts) (λ _ x. x) (emit_failure_details op host n exc)
        (lift (failed_attempt op host n started d exc plan)
          >>= announce_attempt op host n d exc plan p)
        w (emit_failure_details-Safe n exc w)
        (λ t.
          bind-Safe IsForeign (IsOf n (attempt_status_for_exception exc) false)
            (HasFailed n p.attempts) (lift (failed_attempt op host n started d exc plan))
            (announce_attempt op host n d exc plan p) t (failed_attempt-Safe n started d exc plan)
            (λ a h u. announce_attempt-Safe n d exc plan p a u h))

  time_failed_attempt-Safe :
      (n : ℕ) (started : Started) (exc : Exception) (plan : RetryPlan) (p : Progress) (w : Shared E)
      → Safe IsForeign
          (HasFailed n p.attempts)
          (time_failed_attempt op host n started exc plan p w).0
  unfolding time_failed_attempt elapsed_seconds
  time_failed_attempt-Safe n started exc plan p w =
      bind-Safe IsForeign Anything (HasFailed n p.attempts)
        (elapsed_seconds op host started.monotonic)
        (record_failed_attempt op host n started exc plan p) w tt
        (λ d _ t. record_failed_attempt-Safe n started exc plan p d t)

  handle_planned-Safe :
      (n : ℕ) (started : Started) (p : Progress) (planned : Exception × RetryPlan) (w : Shared E)
      → Safe IsForeign (HasFailed n p.attempts) (handle_planned op host n started p planned w).0
  unfolding handle_planned note_rate_limit
  handle_planned-Safe n started p (exc, plan) w =
      bind-Safe IsForeign (λ q. q.attempts ≡ p.attempts) (HasFailed n p.attempts)
        (note_rate_limit op host n exc plan p) (time_failed_attempt op host n started exc plan) w
        (note_if-Safe plan.rate_limited n exc plan p w)
        (λ q e t.
          subst
            (λ l.
              Safe IsForeign (HasFailed n l) (time_failed_attempt op host n started exc plan q t).0)
            e (time_failed_attempt-Safe n started exc plan q t))

  extraction_failed-Safe :
      (b : Bool) (e : Exception) (w : Shared E)
      → IsForeign e
      → Safe IsForeign Anything (extraction_failed op host b e w).0
  unfolding extraction_failed
  extraction_failed-Safe true e w h = tt
  extraction_failed-Safe false e w h = h

  end_planning-Safe :
      (exc : Exception) (o : Outcome RetryPlan) (w : Shared E)
      → Safe IsForeign Anything o
      → Safe IsForeign Anything (end_planning op host exc o w).0
  unfolding end_planning
  end_planning-Safe exc (returned plan) w h = tt
  end_planning-Safe exc (raised e) w h = extraction_failed-Safe (is_extraction_error e) e w h
  end_planning-Safe exc (interrupted i) w h = tt

  plan_failure-Safe :
      (exc : Exception) (n : ℕ) (remaining : Bool) (w : Shared E)
      → Safe IsForeign Anything (plan_failure op host exc n remaining w).0
  unfolding plan_failure
  plan_failure-Safe exc n remaining w =
      end_planning-Safe exc (retry_plan_for_exception host.environment op exc n remaining w).0
        (retry_plan_for_exception host.environment op exc n remaining w).1
        (retry_plan_for_exception-Foreign host.environment op exc n remaining w)

  pub handle_failure-Safe :
      (n : ℕ) (remaining : Bool) (started : Started) (exc : Exception) (p : Progress) (w : Shared E)
      → Safe IsForeign
          (HasFailed n p.attempts)
          (handle_failure op host n remaining started exc p w).0
  unfolding handle_failure
  handle_failure-Safe n remaining started exc p w =
      bind-Safe IsForeign Anything (HasFailed n p.attempts) (plan_failure op host exc n remaining)
        (handle_planned op host n started p) w (plan_failure-Safe exc n remaining w)
        (λ planned _ t. handle_planned-Safe n started p planned t)
