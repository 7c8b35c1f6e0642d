-- ===== src/Retry/Script.antt =====
-- Scripts of the calls of an operation that src/relprim/retry.py retries, and what is slept.
use relprim.Prelude.{
  ℕ, suc, ◌+◌, ◌≤◌, ◌≡◌, refl, true, false, List, [], ◌∷◌, ◌++◌, arith, if◌then◌else◌,
}
use relprim.Values.{Duration}
use relprim.Errors.{is_instance}
use relprim.Outcome.{Outcome, returned, raised, interrupted, Action}
use relprim.Retry.{RetryPolicy, Environment, delay_for_retry, takes_draw}

-- The calls made so far, the delays slept, in order, and the random draws taken.
pub record Script : Type 0 where
  pub calls : ℕ
  pub slept : List Duration
  pub drawn : ℕ

abbrev pub fresh : Script
fresh = record { calls = 0; slept = []; drawn = 0 }

abbrev pub scripted : {A : Type 0} → (ℕ → Outcome A) → Action Script A
scripted script s = (script s.calls, record s { calls = s.calls + 1 })

-- A sleeper that returns, and any sequence of random draws.
abbrev pub clockwork : (ℕ → ℕ) → Environment Script
clockwork draws = record {
  sleep = λ d s. (returned tt, record s { slept = s.slept ++ d ∷ [] });
  draw = λ s. (draws s.drawn, record s { drawn = s.drawn + 1 });
}

-- An outcome that the policy retries, and one that it hands to the caller.
abbrev pub IsRetried : {A : Type 0} → RetryPolicy → Outcome A → Type 0
IsRetried p (raised e) = is_instance e p.retry_on ≡ true
IsRetried p _ = ⊥

abbrev pub IsFinal : {A : Type 0} → RetryPolicy → Outcome A → Type 0
IsFinal p (raised e) = is_instance e p.retry_on ≡ false
IsFinal p _ = Unit {0}

-- The delay of the nth retry, drawn where the backoff draws.
abbrev delay_or_zero : Outcome Duration → Duration
delay_or_zero (returned d) = d
delay_or_zero _ = 0

unfoldable pub planned : RetryPolicy → (ℕ → ℕ) → ℕ → ℕ → Duration
planned p draws n drawn =
    delay_or_zero
      (delay_for_retry p.backoff (if takes_draw p.backoff (suc n) then draws drawn else 0) (suc n))

pub delay_or_zero-le :
    (o : Outcome Duration) (m : ℕ) → ((d : Duration) → o ≡ returned d → d ≤ m) → delay_or_zero o ≤ m
delay_or_zero-le (returned d) m h = h d refl
delay_or_zero-le (raised e) m h = omega arith
delay_or_zero-le (interrupted i) m h = omega arith

unfoldable pub after_retry : RetryPolicy → (ℕ → ℕ) → ℕ → Script → Script
after_retry p draws n s = record {
  calls = s.calls + 1;
  slept = s.slept ++ planned p draws n s.drawn ∷ [];
  drawn = if takes_draw p.backoff (suc n) then s.drawn + 1 else s.drawn;
}
