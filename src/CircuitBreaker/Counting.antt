-- ===== src/CircuitBreaker/Counting.antt =====
-- How a breaker counts: a run of recorded failures opens it exactly when it reaches the threshold,
-- and what the exceptions that `record_failure_on` does not match leave alone.
use relprim.Prelude.{ℕ, ◌+◌, ◌≤◌, ◌<◌, ◌≡◌, refl, List, [], ◌∷◌, arith, ltb, if◌then◌else◌}
use relprim.Values.{Seconds}
use relprim.Errors.{closed, open_state, Exception, is_instance}
use relprim.CircuitBreaker.{CircuitBreaker, BreakerState, after_failure}

-- Failures, with the readings of the clock, one after another.
abbrev pub after_failures :
    CircuitBreaker → List (Seconds × Exception) → BreakerState → BreakerState
after_failures b [] s = s
after_failures b ((now, e) ∷ rest) s = after_failures b rest (after_failure b now e s)

-- How many of them `record_failure_on` matches.
abbrev pub recorded : CircuitBreaker → List (Seconds × Exception) → ℕ
recorded b [] = 0
recorded b ((now, e) ∷ rest) =
    (if is_instance e b.record_failure_on then 1 else 0) + recorded b rest

after_failure_open :
    (b : CircuitBreaker) (now : Seconds) (e : Exception) (s : BreakerState)
    → s.state ≡ open_state
    → after_failure b now e s ≡ s
unfolding after_failure
after_failure_open b now e s h = ground arith

open_stays :
    (b : CircuitBreaker) (fs : List (Seconds × Exception)) (s : BreakerState)
    → s.state ≡ open_state
    → after_failures b fs s ≡ s
open_stays b [] s h = refl
open_stays b ((now, e) ∷ rest) s h = rw (after_failure_open b now e s h) (open_stays b rest s h)

counted :
    (b : CircuitBreaker) (fs : List (Seconds × Exception)) (s : BreakerState)
    → s.state ≡ closed
    → s.failure_count < b.failure_threshold
    → let s' = after_failures b fs s in
      let n = s.failure_count + recorded b fs in
      ((n < b.failure_threshold) → (s'.state ≡ closed) × (s'.failure_count ≡ n))
      × ((b.failure_threshold ≤ n)
          → (s'.state ≡ open_state) × (s'.failure_count ≡ b.failure_threshold))
unfolding after_failure
counted b [] s c h = ground arith
counted b ((now, e) ∷ rest) s c h =
    ground
      (arith, counted b rest (after_failure b now e s), open_stays b rest (after_failure b now e s))

-- From a closed breaker that has counted n failures, a run of failures opens it exactly when n and
-- the recorded ones among them reach the threshold, and counts the threshold then; otherwise it stays
-- closed and counts just those.
pub after_failures_lem :
    (b : CircuitBreaker) (fs : List (Seconds × Exception)) (s : BreakerState)
    → s.state ≡ closed
    → s.failure_count < b.failure_threshold
    → let s' = after_failures b fs s in
      let n = s.failure_count + recorded b fs in
      (s'.state ≡ (if ltb n b.failure_threshold then closed else open_state))
      × (s'.failure_count ≡ (if ltb n b.failure_threshold then n else b.failure_threshold))
after_failures_lem b fs s c h = ground (arith, counted b fs s c h)
