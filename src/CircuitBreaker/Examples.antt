-- ===== src/CircuitBreaker/Examples.antt =====
-- Runs of circuit_breaker.py, and the theorems about it at concrete inputs.
use relprim.Prelude.{ℕ, ◌+◌, ◌≤◌, ◌≡◌, refl, true, false, some, [], ◌∷◌, arith, ltb, if◌then◌else◌}
use relprim.Prelude.Int.{pos, ◌+ℤ◌, ◌-ℤ◌}
use relprim.Prelude.Text.{is_blank}
use relprim.Values.{finite, bool, int, float, scalar, lit, text}
use relprim.Errors.{
  closed, open_state, half_open, ExceptionType, Exception, is_instance, value_error, type_error,
  timeout_error,
}
use relprim.Outcome.{cancelled_error, returned, raised, interrupted}
use relprim.Checks.{
  check_seconds, check_exception_types, check_int, exception_class, tuple_of, no_tuple,
}
use relprim.CircuitBreaker.{
  CircuitBreaker, BreakerState, Shared, initial, new, run_async, before_call, after_failure,
  open_error,
}
use relprim.CircuitBreaker.Invariant.{IsValid}
use relprim.CircuitBreaker.Admission.{admission, answer, admitted, before_call-eq-admission}
use relprim.CircuitBreaker.Counting.{after_failures, recorded, after_failures_lem}
use relprim.CircuitBreaker.Tasks.{
  System, idle, Step, admit_call, admit_probe, call_fails, here, next, IsConsistent,
  Reach-IsConsistent,
}
use relprim.CircuitBreaker.Probes.{OrderlyReach, start, then_step, single_probe}
use relprim.CircuitBreaker.Run.{AfterProbe, run_async_frees, probe_cycle}

abbrev breaker : CircuitBreaker
breaker = record {
  name = "provider";
  failure_threshold = 2;
  recovery_timeout_seconds = 30;
  record_failure_on = ExceptionType.timeout_error ∷ [];
}

abbrev outage : Exception
outage = timeout_error (text "slow")

abbrev mistake : Exception
mistake = value_error (text "bad")

abbrev opened : BreakerState
opened = record {
  state = open_state;
  failure_count = 2;
  opened_at = some (pos 10);
  half_open_probe_in_flight = false;
}

abbrev probing : BreakerState
probing = record {
  state = half_open;
  failure_count = 2;
  opened_at = some (pos 10);
  half_open_probe_in_flight = true;
}

new_runs :
    new "provider"
      (scalar (int (pos 2)))
      (scalar (float (finite (pos 30))))
      (tuple_of (exception_class ExceptionType.timeout_error ∷ []))
    ≡ returned breaker
unfolding new check_seconds check_exception_types check_int is_blank
new_runs = refl

new_rejects :
    new "provider" (scalar (bool true)) (scalar (int (pos 30))) no_tuple
    ≡ raised (type_error (lit "failure_threshold" ∷ lit " must be an int." ∷ []))
unfolding new check_seconds check_exception_types check_int is_blank
new_rejects = refl

two_failures :
    after_failures breaker ((pos 3, outage) ∷ (pos 4, mistake) ∷ (pos 10, outage) ∷ []) initial
    ≡ opened
unfolding after_failure is_instance
two_failures = refl

opened-IsValid : IsValid breaker opened
opened-IsValid = ground arith

probing-IsValid : IsValid breaker probing
probing-IsValid = ground arith

before_call-eq-admission_example : before_call breaker (pos 25) opened ≡ (
  answer breaker opened (admission breaker (pos 25) opened),
  admitted opened (admission breaker (pos 25) opened),
)
before_call-eq-admission_example = before_call-eq-admission breaker (pos 25) opened opened-IsValid

after_failures_lem_example :
    let s' = after_failures breaker ((pos 3, outage) ∷ []) initial in
    let n = 0 + recorded breaker ((pos 3, outage) ∷ []) in
    (s'.state ≡ (if ltb n 2 then closed else open_state))
    × (s'.failure_count ≡ (if ltb n 2 then n else 2))
after_failures_lem_example =
    after_failures_lem breaker ((pos 3, outage) ∷ []) initial refl (omega arith)

abbrev one_call : System
one_call = record { breaker = initial; probes = 0; calls = 1 }

abbrev two_calls : System
two_calls = record { breaker = initial; probes = 0; calls = 2 }

abbrev one_failed : System
one_failed = record { breaker = record initial { failure_count = 1 }; probes = 0; calls = 1 }

abbrev both_failed : System
both_failed = record { breaker = opened; probes = 0; calls = 0 }

abbrev one_probe : System
one_probe = record { breaker = probing; probes = 1; calls = 0 }

first_call : Step breaker idle one_call
unfolding before_call
first_call = admit_call (pos 0) refl refl refl

second_call : Step breaker one_call two_calls
unfolding before_call
second_call = admit_call (pos 1) refl refl refl

first_failure : Step breaker two_calls one_failed
unfolding after_failure is_instance
first_failure = call_fails (pos 9) outage refl refl refl

second_failure : Step breaker one_failed both_failed
unfolding after_failure is_instance
second_failure = call_fails (pos 10) outage refl refl refl

probe_call : Step breaker both_failed one_probe
unfolding before_call ◌-ℤ◌
probe_call = admit_probe (pos 40) refl refl refl

Reach-IsConsistent_example : IsConsistent breaker both_failed
Reach-IsConsistent_example =
    Reach-IsConsistent breaker (omega arith)
      (next (next (next (next here first_call) second_call) first_failure) second_failure)

-- Three calls are admitted; two fail and open the breaker, and a fourth call probes while the third is
-- in flight.
abbrev three_calls : System
three_calls = record { breaker = initial; probes = 0; calls = 3 }

abbrev two_left : System
two_left = record one_failed { calls = 2 }

abbrev one_left : System
one_left = record both_failed { calls = 1 }

abbrev probe_and_call : System
probe_and_call = record one_probe { calls = 1 }

abbrev two_probes : System
two_probes = record { breaker = probing; probes = 2; calls = 0 }

orderly_run : OrderlyReach breaker idle one_probe
unfolding first_call second_call first_failure second_failure probe_call
orderly_run =
    then_step
      (then_step
        (then_step (then_step (then_step start first_call tt) second_call tt) first_failure
          (λ e. cc))
        second_failure (λ e. cc))
      probe_call tt

single_probe_example : one_probe.probes ≤ 1
single_probe_example = single_probe breaker (omega arith) orderly_run

abbrev at_opened : Shared (Unit {0})
at_opened = record { breaker = opened; now = pos 25; rest = tt }

rejected_at_25 :
    (before_call breaker (pos 25) opened).0 ≡ raised (open_error breaker opened (some (pos 15)))
unfolding before_call ◌+ℤ◌ ◌-ℤ◌
rejected_at_25 = refl

turned_away :
    run_async {A = ℕ} breaker (λ w. (returned 7, w)) at_opened
    ≡ (raised (open_error breaker opened (some (pos 15))), at_opened)
unfolding run_async before_call ◌+ℤ◌ ◌-ℤ◌
turned_away = refl

abbrev at_recovery : Shared (Unit {0})
at_recovery = record { breaker = opened; now = pos 40; rest = tt }

probes_at_recovery : before_call breaker (pos 40) opened ≡ (returned true, probing)
unfolding before_call ◌-ℤ◌
probes_at_recovery = refl

run_async_frees_example :
    let r = run_async {A = ℕ} breaker (λ w. (interrupted cancelled_error, w)) at_recovery in
    (r.0 ≡ interrupted cancelled_error)
    × (r.1.breaker.half_open_probe_in_flight ≡ false)
    × IsValid breaker r.1.breaker
run_async_frees_example =
    run_async_frees breaker (λ w. (interrupted cancelled_error, w)) at_recovery probing
      (omega arith) (λ w v. v) opened-IsValid probes_at_recovery

probe_cycle_example :
    AfterProbe {A = ℕ} breaker
      (pos 45)
      (raised mistake)
      (run_async {A = ℕ} breaker
        (λ w'. (raised mistake, record w' { now = pos 45 }))
        (record { breaker = opened; now = pos 40; rest = tt })).1.breaker
probe_cycle_example =
    probe_cycle breaker (raised mistake) (pos 45)
      (record { breaker = opened; now = pos 40; rest = tt }) (pos 10) refl refl
      (unfold ◌-ℤ◌ in omega arith)
