-- ===== src/CircuitBreaker/Tasks.antt =====
-- A breaker that many tasks share: the interleavings of the critical sections of `run_async`, with
-- the calls that are in flight, admitted as probes or as plain calls.
use relprim.Prelude.{ℕ, ◌+◌, ◌<◌, ◌≡◌, refl, ◌≢◌, Bool, true, false, arith}
use relprim.Values.{Seconds}
use relprim.Errors.{Exception}
use relprim.Outcome.{Outcome, returned, raised}
use relprim.CircuitBreaker.{
  CircuitBreaker, BreakerState, initial, before_call, after_success, after_failure, release_probe,
  reset,
}
use relprim.CircuitBreaker.Invariant.{
  IsValid, initial-IsValid, before_call-IsValid, after_success-IsValid, after_failure-IsValid,
  release_probe-IsValid, reset-IsValid,
}

pub record System : Type 0 where
  pub breaker : BreakerState
  pub probes : ℕ
  pub calls : ℕ

abbrev pub idle : System
idle = record { breaker = initial; probes = 0; calls = 0 }

-- One critical section of one task, or a reset.
pub data Step (b : CircuitBreaker) (s t : System) : Type 0 where
  admit_call :
      (now : Seconds)
      → before_call b now s.breaker ≡ (returned false, t.breaker)
      → t.probes ≡ s.probes
      → t.calls ≡ s.calls + 1
      → Step b s t
  admit_probe :
      (now : Seconds)
      → before_call b now s.breaker ≡ (returned true, t.breaker)
      → t.probes ≡ s.probes + 1
      → t.calls ≡ s.calls
      → Step b s t
  reject_call :
      (now : Seconds) (e : Exception)
      → before_call b now s.breaker ≡ (raised e, t.breaker)
      → t.probes ≡ s.probes
      → t.calls ≡ s.calls
      → Step b s t
  call_succeeds :
      t.breaker ≡ after_success s.breaker → t.probes ≡ s.probes → s.calls ≡ t.calls + 1 → Step b s t
  call_fails :
      (now : Seconds) (e : Exception)
      → t.breaker ≡ after_failure b now e s.breaker
      → t.probes ≡ s.probes
      → s.calls ≡ t.calls + 1
      → Step b s t
  call_interrupted :
      t.breaker ≡ release_probe false s.breaker
      → t.probes ≡ s.probes
      → s.calls ≡ t.calls + 1
      → Step b s t
  probe_succeeds :
      t.breaker ≡ after_success s.breaker → s.probes ≡ t.probes + 1 → t.calls ≡ s.calls → Step b s t
  probe_fails :
      (now : Seconds) (e : Exception)
      → t.breaker ≡ after_failure b now e s.breaker
      → s.probes ≡ t.probes + 1
      → t.calls ≡ s.calls
      → Step b s t
  probe_interrupted :
      t.breaker ≡ release_probe true s.breaker
      → s.probes ≡ t.probes + 1
      → t.calls ≡ s.calls
      → Step b s t
  reset_breaker : t.breaker ≡ reset s.breaker → t.probes ≡ s.probes → t.calls ≡ s.calls → Step b s t

pub data Reach (b : CircuitBreaker) (s : System) : System → Type 0 where
  here : Reach b s s
  next : {t u : System} → Reach b s t → Step b t u → Reach b s u

-- The state of the breaker is valid, and a taken probe slot has a probe in flight to free it.
pub record IsConsistent (b : CircuitBreaker) (s : System) : Type 0 where
  pub valid : IsValid b s.breaker
  pub held : s.breaker.half_open_probe_in_flight ≡ true → 0 < s.probes

-- What each critical section does to the probe slot of a valid state.
module _ (b : CircuitBreaker) (s : BreakerState) where
  pub unchanged_unless_probe :
      (now : Seconds) (o : Outcome Bool) (t : BreakerState)
      → before_call b now s ≡ (o, t)
      → o ≢ returned true
      → t ≡ s
  unfolding before_call
  unchanged_unless_probe now o t e h = ground arith

  pub success_frees : IsValid b s → (after_success s).half_open_probe_in_flight ≡ false
  unfolding after_success
  success_frees h = ground arith

  pub failure_frees :
      (now : Seconds) (e : Exception)
      → IsValid b s
      → (after_failure b now e s).half_open_probe_in_flight ≡ false
  unfolding after_failure
  failure_frees now e h = ground arith

module _ (b : CircuitBreaker) (positive : 0 < b.failure_threshold) where
  free-IsConsistent :
      (t : System) {s : BreakerState}
      → t.breaker ≡ s
      → IsValid b s
      → s.half_open_probe_in_flight ≡ false
      → IsConsistent b t
  free-IsConsistent t e v f = record { valid = rw e v; held = rw e (λ x. cc) }

  Step-IsConsistent : {s t : System} → Step b s t → IsConsistent b s → IsConsistent b t
  unfolding release_probe reset
  Step-IsConsistent {s} {t} (admit_call now e p c) h =
      let same = unchanged_unless_probe b s.breaker now _ _ e (λ x. cc) in
      record { valid = rw same h.valid; held = rw (same, p) h.held }
  Step-IsConsistent {s} {t} (admit_probe now e p c) h = record {
    valid = rw e at (before_call-IsValid b now s.breaker h.valid);
    held = λ x. omega arith;
  }
  Step-IsConsistent {s} {t} (reject_call now x e p c) h =
      let same = unchanged_unless_probe b s.breaker now _ _ e (λ y. cc) in
      record { valid = rw same h.valid; held = rw (same, p) h.held }
  Step-IsConsistent {s} {t} (call_succeeds e p c) h =
      free-IsConsistent t e (after_success-IsValid b s.breaker positive h.valid)
        (success_frees b s.breaker h.valid)
  Step-IsConsistent {s} {t} (call_fails now x e p c) h =
      free-IsConsistent t e (after_failure-IsValid b now x s.breaker h.valid)
        (failure_frees b s.breaker now x h.valid)
  Step-IsConsistent {s} {t} (call_interrupted e p c) h = record {
    valid = rw e h.valid;
    held = rw (e, p) h.held;
  }
  Step-IsConsistent {s} {t} (probe_succeeds e p c) h =
      free-IsConsistent t e (after_success-IsValid b s.breaker positive h.valid)
        (success_frees b s.breaker h.valid)
  Step-IsConsistent {s} {t} (probe_fails now x e p c) h =
      free-IsConsistent t e (after_failure-IsValid b now x s.breaker h.valid)
        (failure_frees b s.breaker now x h.valid)
  Step-IsConsistent {s} {t} (probe_interrupted e p c) h =
      free-IsConsistent t e (release_probe-IsValid b true s.breaker h.valid) refl
  Step-IsConsistent {s} {t} (reset_breaker e p c) h =
      free-IsConsistent t e (reset-IsValid b s.breaker positive) refl

  -- Whatever the tasks do, and however their critical sections interleave, the state of the breaker
  -- stays valid, and a probe slot is taken only while a probe is in flight that will free it.
  pub Reach-IsConsistent : {t : System} → Reach b idle t → IsConsistent b t
  Reach-IsConsistent here = record {
    valid = initial-IsValid b positive;
    held = λ x. absurd (ground arith);
  }
  Reach-IsConsistent (next r st) = Step-IsConsistent st (Reach-IsConsistent r)
