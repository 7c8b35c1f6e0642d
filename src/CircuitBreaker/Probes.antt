-- ===== src/CircuitBreaker/Probes.antt =====
-- How many half-open probes may be in flight at once.
use relprim.Prelude.{ℕ, ◌≤◌, ◌<◌, ◌≡◌, refl, ◌≢◌, Bool, true, false, arith}
use relprim.Errors.{half_open}
use relprim.CircuitBreaker.{
  CircuitBreaker, before_call, after_success, after_failure, release_probe, reset,
}
use relprim.CircuitBreaker.Invariant.{IsValid}
use relprim.CircuitBreaker.Tasks.{
  System, idle, Step, admit_call, admit_probe, reject_call, call_succeeds, call_fails,
  call_interrupted, probe_succeeds, probe_fails, probe_interrupted, reset_breaker, Reach, here,
  next, Reach-IsConsistent,
}

-- No call that was admitted before the breaker opened ends, with a result or an exception, while the
-- breaker is half-open, and no reset comes while a probe is in flight.
abbrev pub IsOrderly : {b : CircuitBreaker} {s t : System} → Step b s t → Type 0
IsOrderly {s = s} (call_succeeds e p c) = s.breaker.state ≢ half_open
IsOrderly {s = s} (call_fails now x e p c) = s.breaker.state ≢ half_open
IsOrderly {s = s} (reset_breaker e p c) = s.probes ≡ 0
IsOrderly _ = Unit {0}

pub data OrderlyReach (b : CircuitBreaker) (s : System) : System → Type 0 where
  start : OrderlyReach b s s
  then_step :
      {t u : System} → OrderlyReach b s t → (st : Step b t u) → IsOrderly st → OrderlyReach b s u

pub OrderlyReach-Reach : {b : CircuitBreaker} {s t : System} → OrderlyReach b s t → Reach b s t
OrderlyReach-Reach start = here
OrderlyReach-Reach (then_step r st o) = next (OrderlyReach-Reach r) st

abbrev slot : Bool → ℕ
slot true = 1
slot false = 0

-- The slot counts the probes.
abbrev IsCounted : System → Type 0
IsCounted s = s.probes ≡ slot s.breaker.half_open_probe_in_flight

module _ (b : CircuitBreaker) where
  Step-IsCounted :
      {s t : System} (st : Step b s t)
      → IsOrderly st
      → IsValid b s.breaker
      → IsCounted s
      → IsCounted t
  unfolding before_call after_success after_failure release_probe reset
  Step-IsCounted (admit_call now e p c) o v h = ground arith
  Step-IsCounted (admit_probe now e p c) o v h = ground arith
  Step-IsCounted (reject_call now x e p c) o v h = ground arith
  Step-IsCounted (call_succeeds e p c) o v h = ground arith
  Step-IsCounted (call_fails now x e p c) o v h = ground arith
  Step-IsCounted (call_interrupted e p c) o v h = ground arith
  Step-IsCounted (probe_succeeds e p c) o v h = ground arith
  Step-IsCounted (probe_fails now x e p c) o v h = ground arith
  Step-IsCounted (probe_interrupted e p c) o v h = ground arith
  Step-IsCounted (reset_breaker e p c) o v h = ground arith

  OrderlyReach-IsCounted :
      0 < b.failure_threshold → {t : System} → OrderlyReach b idle t → IsCounted t
  OrderlyReach-IsCounted p start = refl
  OrderlyReach-IsCounted p (then_step r st o) =
      Step-IsCounted st o (Reach-IsConsistent b p (OrderlyReach-Reach r)).valid
        (OrderlyReach-IsCounted p r)

  -- Where no plain call ends while the breaker is half-open, and no reset comes while a probe is in
  -- flight, at most one probe is in flight, whatever else the tasks do.
  pub single_probe : 0 < b.failure_threshold → {t : System} → OrderlyReach b idle t → t.probes ≤ 1
  single_probe p {t} r = ground (arith, OrderlyReach-IsCounted p r)
