-- ===== src/Retry/Monotone.antt =====
-- Without jitter the delays begin at the base and never fall; and where a float power overflows, they
-- are the maximum, whatever the base.
use relprim.Prelude.{
  ℕ, zero, suc, ◌+◌, ◌*◌, ◌/◌, ◌^◌, ◌≤◌, ◌<◌, ◌≡◌, inl, inr, true, false, arith, Bool-cases,
}
use relprim.Values.{Duration, ticks_per_second}
use relprim.Outcome.{returned}
use relprim.Checks.{float_limit}
use native.Mathlib.Nat.{
  mul-one, div-one, zero-mul, zero-div, mul-div-mul_right, pow-suc, pow-zero, add-zero, add-suc,
  mul_assoc, mul-pos, mul-le-mul, mul-le-mul_left, le-div_iff_mul-le, div-mul-le_self, le_trans,
}
use relprim.Retry.{ExponentialBackoff, power_overflows, scaled, capped, delay_for_retry}
use relprim.Retry.Backoff.{IsValid}

pow_pos : (t k : ℕ) → 0 < t → 0 < t ^ k
pow_pos t zero h = rw pow-zero (omega arith)
pow_pos t (suc k) h = rw pow-suc (mul-pos (pow_pos t k h) h)

div_mono : (k a b : ℕ) → 0 < k → a ≤ b → a / k ≤ b / k
div_mono k a b p h = (le-div_iff_mul-le p).1 (le_trans (div-mul-le_self a k) h)

div-grows : (x s m t : ℕ) → 0 < s → 0 < t → t ≤ m → x / s ≤ x * m / (s * t)
div-grows x s m t ps pt h =
    rw (← mul-div-mul_right x s pt)
      (div_mono (s * t) (x * t) (x * m) (mul-pos ps pt) (mul-le-mul_left x h))

module _ (b : ExponentialBackoff) (v : IsValid b) where
  scaled-suc : (k : ℕ) → scaled b k ≤ scaled b (suc k)
  unfolding scaled
  scaled-suc k =
      rw (pow-suc b.multiplier k, pow-suc ticks_per_second k, ← mul_assoc)
        (div-grows (b.base_delay_seconds * b.multiplier ^ k) (ticks_per_second ^ k) b.multiplier
          ticks_per_second (pow_pos ticks_per_second k (omega arith)) (omega arith) v.growing)

  limit-suc :
      (l k : ℕ)
      → l * ticks_per_second ^ k ≤ b.multiplier ^ k
      → l * ticks_per_second ^ suc k ≤ b.multiplier ^ suc k
  limit-suc l k h =
      rw (pow-suc b.multiplier k, pow-suc ticks_per_second k, ← mul_assoc) (mul-le-mul h v.growing)

  overflows-suc : (k : ℕ) → power_overflows b k ≡ true → power_overflows b (suc k) ≡ true
  unfolding power_overflows
  overflows-suc k h = ground (arith, limit-suc float_limit k)

  capped-suc : (k : ℕ) → capped b k ≤ capped b (suc k)
  unfolding capped
  capped-suc k = ground (arith, scaled-suc k, overflows-suc k)

  pub capped_mono : (k n : ℕ) → capped b k ≤ capped b (k + n)
  capped_mono k zero = rw add-zero (omega arith)
  capped_mono k (suc n) = rw add-suc (le_trans (capped_mono k n) (capped-suc (k + n)))

  never_at_zero : power_overflows b 0 ≡ false
  unfolding power_overflows float_limit
  never_at_zero = rw pow-zero (ground arith)

  base-scaled : scaled b 0 ≡ b.base_delay_seconds
  unfolding scaled
  base-scaled = rw (pow-zero b.multiplier, mul-one) (div-one b.base_delay_seconds)

  capped-zero : capped b 0 ≡ b.base_delay_seconds
  unfolding capped
  capped-zero = ground (arith, never_at_zero, base-scaled, v.ordered)

-- Without jitter the first retry waits for base_delay_seconds, no retry waits for less, and a later
-- retry never waits for less than an earlier one.
pub delay_for_retry_mono :
    (b : ExponentialBackoff) (draw draw' k n : ℕ) {d d' : Duration}
    → IsValid b
    → b.jitter ≡ false
    → delay_for_retry b draw (suc k) ≡ returned d
    → delay_for_retry b draw' (suc (k + n)) ≡ returned d'
    → (delay_for_retry b draw 1 ≡ returned b.base_delay_seconds)
      × (b.base_delay_seconds ≤ d)
      × (d ≤ d')
unfolding delay_for_retry
delay_for_retry_mono b draw draw' k n v j h h' =
    let first : capped b 0 ≤ capped b (0 + k) = capped_mono b v 0 k in
    let e : 0 + k ≡ k = omega arith in
    let first' : capped b 0 ≤ capped b k = rw e at first in
    ground (arith, capped_mono b v k n, first', capped-zero b v)

scaled_of_zero : (b : ExponentialBackoff) (k : ℕ) → b.base_delay_seconds ≡ 0 → scaled b k ≡ 0
unfolding scaled
scaled_of_zero b k z = rw (z, zero-mul) (zero-div (ticks_per_second ^ k))

overflows_mono :
    (b : ExponentialBackoff)
    → IsValid b
    → (k n : ℕ) → power_overflows b k ≡ true
    → power_overflows b (k + n) ≡ true
overflows_mono b v k zero h = rw add-zero h
overflows_mono b v k (suc n) h = rw add-suc (overflows-suc b v (k + n) (overflows_mono b v k n h))

-- In a valid configuration, whose multiplier is at least 1, with a base delay of 0 and without
-- jitter, a retry that has any delay has the maximal one, and so has every later retry.
pub zero_base_overflow :
    (b : ExponentialBackoff) (draw draw' k n : ℕ) (d : Duration)
    → IsValid b
    → b.base_delay_seconds ≡ 0
    → b.jitter ≡ false
    → delay_for_retry b draw (suc k) ≡ returned d
    → 0 < d
    → (d ≡ b.max_delay_seconds)
      × (delay_for_retry b draw' (suc (k + n)) ≡ returned b.max_delay_seconds)
unfolding delay_for_retry
zero_base_overflow b draw draw' k n d v z j h positive = elim (Bool-cases (power_overflows b k)) [
  | inl over ↦ ground (arith, overflows_mono b v k n over)
  | inr fits ↦ absurd (ground (arith, scaled_of_zero b k z))
]
