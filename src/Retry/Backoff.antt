-- ===== src/Retry/Backoff.antt =====
-- The delays of `ExponentialBackoff.delay_for_retry`: their bounds, and what they are without jitter.
use relprim.Prelude.{ℕ, zero, suc, ◌≤◌, ◌≡◌, refl, false, arith}
use relprim.Values.{Duration, ticks_per_second}
use relprim.Outcome.{returned}
use native.Mathlib.Nat.{div-le_of_le-mul}
use relprim.Retry.{
  power_overflows, scaled, ExponentialBackoff, capped, uniform, random_steps, delay_for_retry,
}

-- What the constructor guarantees.
pub record IsValid (b : ExponentialBackoff) : Type 0 where
  pub ordered : b.base_delay_seconds ≤ b.max_delay_seconds
  pub growing : ticks_per_second ≤ b.multiplier

uniform-le : (delay draw : ℕ) → uniform delay draw ≤ delay
unfolding uniform
uniform-le delay draw = div-le_of_le-mul random_steps (grind arith)

pub capped-le : (b : ExponentialBackoff) (k : ℕ) → capped b k ≤ b.max_delay_seconds
unfolding capped
capped-le b k = ground arith

-- A delay never exceeds the one that the same policy has without jitter, which in turn never exceeds
-- max_delay_seconds, also where the power overflows.
pub delay_for_retry_bounds :
    (b : ExponentialBackoff) (draw retry_number : ℕ) {d plain : Duration}
    → delay_for_retry b draw retry_number ≡ returned d
    → delay_for_retry (record b { jitter = false }) draw retry_number ≡ returned plain
    → (d ≤ plain) × (plain ≤ b.max_delay_seconds)
unfolding delay_for_retry power_overflows scaled
delay_for_retry_bounds b draw zero h p = cc
delay_for_retry_bounds b draw (suc k) h p =
    ground (arith, uniform-le (capped b k) draw, capped-le b k, same)
  where
    same : capped (record b { jitter = false }) k ≡ capped b k
    same = refl

-- Every delay is at most max_delay_seconds.
pub delay-le :
    (b : ExponentialBackoff) (draw n : ℕ) {d : Duration}
    → delay_for_retry b draw n ≡ returned d
    → d ≤ b.max_delay_seconds
unfolding delay_for_retry
delay-le b draw zero h = cc
delay-le b draw (suc k) h = ground (arith, uniform-le (capped b k) draw, capped-le b k)
