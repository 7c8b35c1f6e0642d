-- ===== src/CircuitBreaker.antt =====
-- src/relprim/circuit_breaker.py. The configuration of a breaker is apart from its state, which the
-- tasks of the event loop share. Every critical section (`async with self._lock`) contains no
-- `await`, so it is one function from state to state; between two of them other tasks may run.
pub mod Invariant
pub mod Admission
pub mod Counting
pub mod Tasks
pub mod Probes
pub mod Run
mod Examples
use relprim.Prelude.{
  ℕ, ◌+◌, String, Bool, true, false, Option, none, some, List, [], ◌∷◌, leb, if◌then◌else◌,
}
use relprim.Prelude.Int.{ℤ, pos, pos_part, ◌-ℤ◌, ltb_ℤ, leb_ℤ, max_ℤ}
use relprim.Prelude.Text.{is_blank}
use relprim.Values.{Seconds, Duration, PyObject, lit, text}
use relprim.Errors.{
  CircuitBreakerState, closed, open_state, half_open, ExceptionType, Exception, is_instance,
  value_error, circuit_breaker_open_error,
}
use relprim.Outcome.{Outcome, returned, raised, interrupted, bind_outcome, Action, ◌>>=◌, ◌>>◌}
use relprim.Checks.{check_seconds, check_exception_types, check_int, TypesObject}

pub record CircuitBreaker : Type 0 where
  pub name : String
  pub failure_threshold : ℕ
  pub recovery_timeout_seconds : Duration
  pub record_failure_on : List ExceptionType

-- The attributes that change.
pub record BreakerState : Type 0 where
  pub state : CircuitBreakerState
  pub failure_count : ℕ
  pub opened_at : Option Seconds
  pub half_open_probe_in_flight : Bool

abbrev pub initial : BreakerState
initial = record {
  state = closed;
  failure_count = 0;
  opened_at = none;
  half_open_probe_in_flight = false;
}

check_name : String → Outcome (Unit {0})
check_name name =
    if is_blank name then raised (value_error (text "name must not be empty.")) else returned tt

check_threshold : ℤ → Outcome ℕ
check_threshold n =
    if ltb_ℤ n (pos 1)
    then raised (value_error (text "failure_threshold must be greater than or equal to 1."))
    else returned (pos_part n)

-- `CircuitBreaker(...)`: the dataclass constructor with `__post_init__`.
unfoldable pub new : String → PyObject → PyObject → TypesObject → Outcome CircuitBreaker
unfolding check_name check_threshold check_int
new name threshold timeout types = bind_outcome (check_name name) λ _.
    bind_outcome (check_int "failure_threshold" threshold) λ n.
      bind_outcome (check_threshold n) λ failure_threshold.
        bind_outcome (check_seconds "recovery_timeout_seconds" false timeout) λ seconds.
          bind_outcome (check_exception_types "record_failure_on" types) λ record_failure_on.
            returned (record {
              name = name;
              failure_threshold = failure_threshold;
              recovery_timeout_seconds = seconds;
              record_failure_on = record_failure_on;
            })

-- `state.value`
abbrev pub state_value : CircuitBreakerState → String
state_value closed = "closed"
state_value open_state = "open"
state_value half_open = "half_open"

unfoldable pub open_error : CircuitBreaker → BreakerState → Option Seconds → Exception
open_error b s retry_after =
    circuit_breaker_open_error
      (lit "Circuit breaker '"
        ∷ lit b.name
        ∷ lit "' is "
        ∷ lit (state_value s.state)
        ∷ lit "."
        ∷ [])
      b.name s.state retry_after

-- `now` is the reading of the clock.
unfoldable pub open_breaker : Seconds → BreakerState → BreakerState
open_breaker now s = record s {
  state = open_state;
  opened_at = some now;
  half_open_probe_in_flight = false;
}

unfoldable pub close_breaker : BreakerState → BreakerState
close_breaker s = record {
  state = closed;
  failure_count = 0;
  opened_at = none;
  half_open_probe_in_flight = false;
}

-- The branch of `_before_call` for an open breaker.
before_call_open :
    CircuitBreaker → Seconds → Option Seconds → BreakerState → Outcome Bool × BreakerState
before_call_open b now none s = (raised (open_error b s (some (pos b.recovery_timeout_seconds))), s)
before_call_open b now (some opened_at) s =
    let elapsed = now -ℤ opened_at in
    if leb_ℤ (pos b.recovery_timeout_seconds) elapsed
    then (returned true, record s { state = half_open; half_open_probe_in_flight = true })
    else (
      raised (open_error b s (some (max_ℤ (pos 0) (pos b.recovery_timeout_seconds -ℤ elapsed)))),
      s,
    )

-- `_before_call`: true for a half-open probe.
unfoldable pub before_call : CircuitBreaker → Seconds → BreakerState → Outcome Bool × BreakerState
unfolding before_call_open
before_call b now s = elim s.state [
  | open_state ↦ before_call_open b now s.opened_at s
  | half_open ↦
      if s.half_open_probe_in_flight
      then (raised (open_error b s none), s)
      else (returned true, record s { half_open_probe_in_flight = true })
  | closed ↦ (returned false, s)
]

unfoldable pub after_success : BreakerState → BreakerState
unfolding close_breaker
after_success s = elim s.state [
  | half_open ↦ close_breaker s
  | closed ↦ record s { failure_count = 0 }
  | open_state ↦ s
]

-- A failure that `record_failure_on` does not match.
ignored_failure : BreakerState → BreakerState
ignored_failure s = elim s.state [
  | half_open ↦ record s { half_open_probe_in_flight = false }
  | _ ↦ s
]

recorded_failure : CircuitBreaker → Seconds → BreakerState → BreakerState
unfolding open_breaker
recorded_failure b now s = elim s.state [
  | half_open ↦ open_breaker now s
  | closed ↦
      let counted : BreakerState = record s { failure_count = s.failure_count + 1 } in
      if leb b.failure_threshold (s.failure_count + 1) then open_breaker now counted else counted
  | open_state ↦ s
]

unfoldable pub after_failure : CircuitBreaker → Seconds → Exception → BreakerState → BreakerState
unfolding ignored_failure recorded_failure
after_failure b now exception s =
    if is_instance exception b.record_failure_on
    then recorded_failure b now s
    else ignored_failure s

-- The `except BaseException` branch of `run_async`.
unfoldable pub release_probe : Bool → BreakerState → BreakerState
release_probe probe s = if probe then record s { half_open_probe_in_flight = false } else s

unfoldable pub reset : BreakerState → BreakerState
unfolding close_breaker
reset s = close_breaker s

pub record CircuitBreakerSnapshot : Type 0 where
  pub name : String
  pub state : CircuitBreakerState
  pub failure_count : ℕ
  pub failure_threshold : ℕ
  pub opened_at : Option Seconds
  pub recovery_timeout_seconds : Duration
  pub half_open_probe_in_flight : Bool

unfoldable pub snapshot : CircuitBreaker → BreakerState → CircuitBreakerSnapshot
snapshot b s = record {
  name = b.name;
  state = s.state;
  failure_count = s.failure_count;
  failure_threshold = b.failure_threshold;
  opened_at = s.opened_at;
  recovery_timeout_seconds = b.recovery_timeout_seconds;
  half_open_probe_in_flight = s.half_open_probe_in_flight;
}

-- What a call shares with other tasks: the breaker, the time, and everything else. The time that
-- passes between the steps of a call is counted to the operation, whose action may move both.
pub record Shared (E : Type 0) : Type 0 where
  pub breaker : BreakerState
  pub now : Seconds
  pub rest : E

before_call_action : {E : Type 0} → CircuitBreaker → Action (Shared E) Bool
before_call_action b w = let (o, s) = before_call b w.now w.breaker in (o, record w { breaker = s })

settle : {E A : Type 0} → CircuitBreaker → Bool → Outcome A → Shared E → Shared E
settle b probe (returned a) w = record w { breaker = after_success w.breaker }
settle b probe (raised e) w = record w { breaker = after_failure b w.now e w.breaker }
settle b probe (interrupted i) w = record w { breaker = release_probe probe w.breaker }

-- `run_async`. The operation is any action: it may fail, and while it waits other tasks may change
-- the breaker.
unfoldable pub run_async :
    {E A : Type 0} → CircuitBreaker → Action (Shared E) A → Action (Shared E) A
unfolding before_call_action settle
run_async b operation = do
  probe ← before_call_action b
  λ w. let (o, w') = operation w in (o, settle b probe o w')
