-- ===== src/CircuitBreaker/Invariant.antt =====
-- The invariant of a breaker's state, kept by every critical section of circuit_breaker.py.
use relprim.Prelude.{◌<◌, ◌≡◌, ◌≢◌, Bool, true, none, arith, is_some}
use relprim.Values.{Seconds}
use relprim.Errors.{closed, half_open, Exception}
use relprim.CircuitBreaker.{
  CircuitBreaker, BreakerState, initial, before_call, after_success, after_failure, release_probe,
  reset,
}

pub record IsValid (b : CircuitBreaker) (s : BreakerState) : Type 0 where
  -- A closed breaker has counted fewer failures than its threshold, and holds no traces of an
  -- earlier opening.
  pub closed_below : s.state ≡ closed → s.failure_count < b.failure_threshold
  pub closed_clean : s.state ≡ closed → s.opened_at ≡ none
  -- Any other has counted exactly as many, and knows when it opened.
  pub tripped : s.state ≢ closed → s.failure_count ≡ b.failure_threshold
  pub tripped_at : s.state ≢ closed → is_some s.opened_at ≡ true
  -- Only a half-open breaker has a probe in flight.
  pub probing : s.half_open_probe_in_flight ≡ true → s.state ≡ half_open

module _ (b : CircuitBreaker) where
  pub initial-IsValid : 0 < b.failure_threshold → IsValid b initial
  initial-IsValid h = ground arith

  pub before_call-IsValid :
      (now : Seconds) (s : BreakerState) → IsValid b s → IsValid b (before_call b now s).1
  unfolding before_call
  before_call-IsValid now s h = ground arith

  pub after_success-IsValid :
      (s : BreakerState) → 0 < b.failure_threshold → IsValid b s → IsValid b (after_success s)
  unfolding after_success
  after_success-IsValid s p h = ground arith

  pub after_failure-IsValid :
      (now : Seconds) (e : Exception) (s : BreakerState)
      → IsValid b s
      → IsValid b (after_failure b now e s)
  unfolding after_failure
  after_failure-IsValid now e s h = ground arith

  pub release_probe-IsValid :
      (probe : Bool) (s : BreakerState) → IsValid b s → IsValid b (release_probe probe s)
  unfolding release_probe
  release_probe-IsValid probe s h = ground arith

  pub reset-IsValid : (s : BreakerState) → 0 < b.failure_threshold → IsValid b (reset s)
  unfolding reset
  reset-IsValid s p = ground arith
