-- ===== src/Operation/Run/Rounds.antt =====
-- The attempts at the start and at the end of a round of the loop of src/relprim/operation.py.
use relprim.Prelude.{
  ℕ, suc, ◌+◌, ◌≡◌, refl, sym, ap, ◌∙◌, true, false, List, [], ◌∷◌, ◌++◌, arith, is_some, length,
  length-append,
}
use relprim.Report.{AttemptStatus, ExecutionAttempt, attempt_succeeded}
use mathlib.Core.Path.{subst}
use relprim.Report.Build.Foreign.{IsOf}
use relprim.Operation.{AsyncOperation, max_attempts}
use relprim.Operation.Failure.{Failed}
use relprim.Operation.Failure.Reports.{HasFailed}
use relprim.Operation.Fallbacks.Pending.{CanFallBack}
use relprim.Operation.Reported.{IsPending, IsPending-append, IsFinished}

module _ {E R : Type 0} (op : AsyncOperation E R) where
  -- The state at the start of attempt n, with the rounds that are left.
  pub record IsRound (n rounds : ℕ) (attempts : List ExecutionAttempt) : Type 0 where
    pub pending : IsPending attempts
    pub counted : n ≡ length attempts + 1
    pub left : length attempts + rounds ≡ max_attempts op

  pub succeeded :
      (n rounds : ℕ) (attempts : List ExecutionAttempt) (a : ExecutionAttempt)
      → IsRound n (suc rounds) attempts
      → IsOf n AttemptStatus.succeeded false a
      → IsFinished op true (attempts ++ a ∷ [])
  succeeded n rounds attempts a h (k, s, f) = record {
    earlier = attempts;
    last = a;
    split = refl;
    pending = h.pending;
    number = k ∙ h.counted;
    ended = ap attempt_succeeded s;
    bounded = rw f (omega (arith, h.left));
    configured = rw f refl;
  }

  module _ (n rounds : ℕ) (attempts : List ExecutionAttempt) (f : Failed)
      (h : IsRound n (suc rounds) attempts) (x : HasFailed n attempts f) where
    pub gave_up : IsFinished op false f.progress.attempts
    gave_up = record {
      earlier = attempts;
      last = x.attempt;
      split = x.added;
      pending = h.pending;
      number = x.number ∙ h.counted;
      ended = x.failure.0;
      bounded = rw (x.failure.1) (omega (arith, h.left));
      configured = rw (x.failure.1) refl;
    }

    added : IsPending f.progress.attempts
    added =
        subst IsPending (sym x.added)
          (IsPending-append attempts x.attempt h.pending (x.number ∙ h.counted) x.failure)

    one_more : length f.progress.attempts ≡ length attempts + 1
    one_more = ap length x.added ∙ length-append attempts (x.attempt ∷ [])

    pub can_fall_back : is_some op.fallback_chain ≡ true → CanFallBack op f.progress.attempts
    can_fall_back c = record {
      pending = added;
      bounded = omega (arith, one_more, h.left);
      configured = c;
    }

    pub next-IsRound : IsRound (n + 1) rounds f.progress.attempts
    next-IsRound = record {
      pending = added;
      counted = omega (arith, one_more, h.counted);
      left = omega (arith, one_more, h.left);
    }
