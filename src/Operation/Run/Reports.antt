-- ===== src/Operation/Run/Reports.antt =====
-- Whatever an operation of src/relprim/operation.py returns or raises, its report is complete.
use relprim.Prelude.{
  ℕ, zero, suc, ◌+◌, ◌≡◌, refl, sym, inl, inr, Bool, true, false, List, arith, ltb, Bool-cases,
}
use relprim.Values.{Duration, Metadata}
use relprim.Report.{ExecutionAttempt}
use relprim.Outcome.{Outcome, returned, raised, interrupted, Action}
use mathlib.Core.Path.{subst}
use relprim.Outcome.Safe.{Safe, bind-Safe, then-Safe, weaken-Safe, IsForeign, Anything}
use relprim.CircuitBreaker.{Shared}
use relprim.Events.{EventType}
use relprim.Operation.{AsyncOperation, Host, OperationResult, max_attempts}
use relprim.Operation.PlanMetadata.{will_retry}
use relprim.Operation.Attempt.{emit_event, run_single_attempt, sleep_before_retry}
use relprim.Events.Delivery.{IsQuiet}
use relprim.Operation.Attempt.Emits.{emit_event-Safe, sleep_before_retry-Safe}
use relprim.Operation.Progress.{Progress, Started, no_progress, start_now}
use relprim.Operation.Failure.{Failed, handle_failure}
use relprim.Operation.Failure.Reports.{HasFailed, handle_failure-Safe}
use relprim.Operation.Run.{
  attempt_payload, operation_payload, without_retry, waited, after_sleep, retry_if, retry_or_end,
  end_attempt, try_attempt, start_attempt, attempts_loop, start_operation, run_without_idempotency,
}
use relprim.Operation.Run.Rounds.{IsRound, next-IsRound}
use relprim.Operation.Reported.{Reported, IsSuccess, foreign-Reported}
use relprim.Operation.Run.Endings.{primary_succeeded-Safe, fallback_or_give_up-Safe}

module _ {E R : Type 0} (op : AsyncOperation E R) (host : Host (Shared E) R)
    (emits : (t : EventType) (m : Metadata) (w : Shared E)
      → Safe IsForeign Anything (emit_event op t m w).0)
    (sleeps : (d : Duration) (w : Shared E)
      → Safe IsForeign Anything (host.environment.sleep d w).0) where
  -- The rest of the loop, after attempt n has failed.
  abbrev IsRest : ℕ → ℕ → (Progress → Action (Shared E) (OperationResult R)) → Type 0
  IsRest n rounds rest =
      (p : Progress) (w : Shared E)
      → IsRound op (n + 1) rounds p.attempts
      → Safe (Reported op) (IsSuccess op) (rest p w).0

  waited_attempts :
      (f : Failed) (d : Duration) → (waited op host f d).attempts ≡ f.progress.attempts
  waited_attempts f d = elim (Bool-cases f.plan.rate_limited) [
    | inl h ↦ rw h refl
    | inr h ↦ rw h refl
  ]

  retry_if-Safe :
      (b : Bool) (started : Started) (n rounds : ℕ) (attempts : List ExecutionAttempt)
      (rest : Progress → Action (Shared E) (OperationResult R)) (f : Failed) (w : Shared E)
      → IsRest n rounds rest
      → IsRound op n (suc rounds) attempts
      → HasFailed n attempts f
      → Safe (Reported op) (IsSuccess op) (retry_if op host b started n rest f w).0
  unfolding retry_if without_retry after_sleep
  retry_if-Safe false started n rounds attempts rest f w k r x =
      fallback_or_give_up-Safe op host emits op.fallback_chain started n rounds attempts f w refl r
        x
  retry_if-Safe true started n rounds attempts rest f w k r x =
      bind-Safe (Reported op) Anything (IsSuccess op) (sleep_before_retry op host n f.plan)
        (after_sleep op host rest f) w
        (weaken-Safe IsForeign (Reported op) Anything Anything
          (sleep_before_retry op host n f.plan w).0
          (sleep_before_retry-Safe op emits host sleeps n f.plan w) (foreign-Reported op)
          (λ _ y. y))
        (λ d _ t. k (waited op host f d) t (
          subst (IsRound op (n + 1) rounds) (sym (waited_attempts f d))
            (next-IsRound op n rounds attempts f r x)))

  end_attempt-Safe :
      (started : Started) (n rounds : ℕ) (p : Progress)
      (rest : Progress → Action (Shared E) (OperationResult R)) (at : Started)
      (o : Outcome (R × Metadata)) (w : Shared E)
      → IsRest n rounds rest
      → IsRound op n (suc rounds) p.attempts
      → Safe (Reported op) (IsSuccess op) (end_attempt op host started n p rest at o w).0
  unfolding end_attempt retry_or_end
  end_attempt-Safe started n rounds p rest at (returned r) w k h =
      primary_succeeded-Safe op host emits started n rounds at p r.0 r.1 w h
  end_attempt-Safe started n rounds p rest at (interrupted i) w k h = tt
  end_attempt-Safe started n rounds p rest at (raised exc) w k h =
      let remaining = ltb n (max_attempts op) in
      bind-Safe (Reported op) (HasFailed n p.attempts) (IsSuccess op)
        (handle_failure op host n remaining at exc p) (retry_or_end op host started n rest) w
        (weaken-Safe IsForeign (Reported op) (HasFailed n p.attempts) (HasFailed n p.attempts)
          (handle_failure op host n remaining at exc p w).0
          (handle_failure-Safe op host emits n remaining at exc p w) (foreign-Reported op)
          (λ _ y. y))
        (λ f x t. retry_if-Safe (will_retry f.plan) started n rounds p.attempts rest f t k h x)

  start_attempt-Safe :
      (started : Started) (n rounds : ℕ) (p : Progress)
      (rest : Progress → Action (Shared E) (OperationResult R)) (at : Started) (w : Shared E)
      → IsRest n rounds rest
      → IsRound op n (suc rounds) p.attempts
      → Safe (Reported op) (IsSuccess op) (start_attempt op host started n p rest at w).0
  unfolding start_attempt try_attempt
  start_attempt-Safe started n rounds p rest at w k h =
      then-Safe (Reported op) (IsSuccess op) (foreign-Reported op)
        (emit_event op EventType.attempt_started (attempt_payload op host n))
        (try_attempt op host started n p rest at) w
        (emits EventType.attempt_started (attempt_payload op host n) w)
        (λ t.
          end_attempt-Safe started n rounds p rest at (run_single_attempt op host t).0
            (run_single_attempt op host t).1 k h)

  attempts_loop-Safe :
      (started : Started) (n rounds : ℕ) (p : Progress) (w : Shared E)
      → IsRound op n rounds p.attempts
      → Safe (Reported op) (IsSuccess op) (attempts_loop op host started rounds n p w).0
  unfolding attempts_loop start_now
  attempts_loop-Safe started n zero p w h = tt
  attempts_loop-Safe started n (suc rounds) p w h =
      bind-Safe (Reported op) Anything (IsSuccess op) (start_now op host)
        (start_attempt op host started n p (attempts_loop op host started rounds (n + 1))) w tt
        (λ at _ t.
          start_attempt-Safe started n rounds p (attempts_loop op host started rounds (n + 1)) at t
            (λ q u r. attempts_loop-Safe started (n + 1) rounds q u r) h)

  run_without_idempotency-Safe :
      (w : Shared E) → Safe (Reported op) (IsSuccess op) (run_without_idempotency op host w).0
  unfolding run_without_idempotency start_operation start_now
  run_without_idempotency-Safe w =
      bind-Safe (Reported op) Anything (IsSuccess op) (start_now op host) (start_operation op host)
        w tt
        (λ started _ t.
          then-Safe (Reported op) (IsSuccess op) (foreign-Reported op)
            (emit_event op EventType.operation_started (operation_payload op host))
            (attempts_loop op host started (max_attempts op) 1 no_progress) t
            (emits EventType.operation_started (operation_payload op host) t)
            (λ u. attempts_loop-Safe started 1 (max_attempts op) no_progress u (record {
              pending = record { numbered = tt; failures = tt };
              counted = refl;
              left = omega arith;
            })))

-- If no sink, no timestamp factory and no sleeper raises an OperationExecutionError, then every report
-- that a run returns or raises is complete: its attempts are numbered from 1 in order, all before the
-- last one are failed primary attempts, the last one succeeded exactly if the run returned, there are
-- at most max_attempts primary attempts, and a fallback attempt only with a fallback chain.
pub run-Reported :
    {E R : Type 0} (op : AsyncOperation E R) (host : Host (Shared E) R) (w : Shared E)
    → IsQuiet op.event_emitter
    → ((d : Duration) (u : Shared E) → Safe IsForeign Anything (host.environment.sleep d u).0)
    → Safe (Reported op) (IsSuccess op) (run_without_idempotency op host w).0
run-Reported op host w quiet sleeps =
    run_without_idempotency-Safe op host (emit_event-Safe op quiet) sleeps w
