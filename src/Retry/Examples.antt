-- ===== src/Retry/Examples.antt =====
-- Runs of retry.py, and the theorems about it at concrete inputs.
use relprim.Prelude.{
  ℕ, zero, suc, ◌+◌, ◌^◌, ◌≤◌, ◌<◌, ◌≡◌, refl, true, false, [], ◌∷◌, arith, ltb, if◌then◌else◌,
  length, All,
}
use relprim.Prelude.Int.{pos}
use relprim.Values.{finite, int, float, scalar, lit, number, text}
use relprim.Errors.{ExceptionType, Exception, is_instance, timeout_error, retry_error}
use relprim.Outcome.{Outcome, returned, raised}
use relprim.Checks.{float_limit, check_seconds}
use relprim.Retry.{
  scaled, ExponentialBackoff, RetryPolicy, new_backoff, delay_for_retry, power_overflows, run,
}
use relprim.Retry.Backoff.{IsValid, delay_for_retry_bounds}
use relprim.Retry.Monotone.{delay_for_retry_mono, zero_base_overflow}
use relprim.Retry.Script.{fresh, scripted, clockwork, IsRetried}
use relprim.Retry.Loop.{run_stops, run_exhausts}

-- 0.1 s, doubled up to 10 s.
abbrev default : ExponentialBackoff
default = record {
  base_delay_seconds = 100000;
  max_delay_seconds = 10000000;
  multiplier = 2000000;
  jitter = false;
  exact = false;
}

abbrev jittered : ExponentialBackoff
jittered = record default { jitter = true }

abbrev policy : RetryPolicy
policy = record { max_attempts = 3; backoff = default; retry_on = ExceptionType.timeout_error ∷ [] }

new_backoff_runs :
    new_backoff
      (scalar (float (finite (pos 100000))))
      (scalar (int (pos 10)))
      (scalar (int (pos 2)))
      false
    ≡ returned default
unfolding new_backoff check_seconds
new_backoff_runs = refl

third_delay : delay_for_retry default 0 3 ≡ returned 400000
unfolding delay_for_retry power_overflows scaled float_limit
third_delay = refl

jittered_delay : delay_for_retry jittered (2 ^ 52) 3 ≡ returned 200000
unfolding delay_for_retry power_overflows scaled float_limit
jittered_delay = refl

plain_delay : delay_for_retry default (2 ^ 52) 3 ≡ returned 400000
unfolding delay_for_retry power_overflows scaled float_limit
plain_delay = refl

delay_for_retry_bounds_example : (200000 ≤ 400000) × (400000 ≤ 10000000)
delay_for_retry_bounds_example =
    delay_for_retry_bounds jittered (2 ^ 52) 3 jittered_delay plain_delay

default-IsValid : IsValid default
default-IsValid = omega arith

ninth_delay : delay_for_retry default 0 9 ≡ returned 10000000
unfolding delay_for_retry power_overflows scaled float_limit
ninth_delay = refl

delay_for_retry_mono_example :
    (delay_for_retry default 0 1 ≡ returned 100000) × (100000 ≤ 400000) × (400000 ≤ 10000000)
delay_for_retry_mono_example =
    delay_for_retry_mono default 0 0 2 6 default-IsValid refl third_delay ninth_delay

abbrev zero_base : ExponentialBackoff
zero_base = record default { base_delay_seconds = 0 }

zero_base_delay : delay_for_retry zero_base 0 1025 ≡ returned 10000000
unfolding delay_for_retry float_limit power_overflows
zero_base_delay = refl

zero_base_overflow_example :
    (10000000 ≡ zero_base.max_delay_seconds)
    × (delay_for_retry zero_base 0 (suc (1024 + 5)) ≡ returned 10000000)
zero_base_overflow_example =
    zero_base_overflow zero_base 0 0 1024 5 10000000 (omega arith) refl refl zero_base_delay
      (omega arith)

abbrev slow : Exception
slow = timeout_error (text "slow")

-- Two timeouts, then a result.
abbrev recovering : ℕ → Outcome ℕ
recovering n = if ltb n 2 then raised slow else returned 7

slow_retried : is_instance slow policy.retry_on ≡ true
unfolding is_instance
slow_retried = refl

recovering-IsRetried : (j : ℕ) → j < 2 → IsRetried policy (recovering j)
recovering-IsRetried zero h = slow_retried
recovering-IsRetried (suc zero) h = slow_retried
recovering-IsRetried (suc (suc j)) h = absurd (omega arith)

run_stops_example :
    let out = run policy (clockwork (λ n. n)) (scripted recovering) fresh in
    (out.0 ≡ returned 7)
    × (out.1.calls ≡ 3)
    × (length out.1.slept ≡ 2)
    × All (λ d. d ≤ 10000000) out.1.slept
run_stops_example = run_stops policy (λ n. n) recovering 2 (omega arith) recovering-IsRetried tt

run_exhausts_example :
    let out = run {A = ℕ} policy (clockwork (λ n. n)) (scripted (λ n. raised slow)) fresh in
    (out.0
      ≡ raised
          (retry_error (lit "Operation failed after " ∷ number 3 ∷ lit " attempt(s)." ∷ []) 3 slow))
    × (out.1.calls ≡ 3)
    × (length out.1.slept + 1 ≡ 3)
    × All (λ d. d ≤ 10000000) out.1.slept
run_exhausts_example =
    run_exhausts policy (λ n. n) (λ n. raised slow) 2 refl (λ j h. slow_retried) refl
