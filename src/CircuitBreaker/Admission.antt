-- ===== src/CircuitBreaker/Admission.antt =====
-- When `_before_call` admits a call, as a probe or not, and what it tells a rejected one.
use relprim.Prelude.{◌≡◌, Bool, true, false, Option, none, some, arith, if◌then◌else◌}
use relprim.Prelude.Int.{pos, ◌+ℤ◌, ◌-ℤ◌, leb_ℤ, max_ℤ}
use relprim.Values.{Seconds}
use relprim.Errors.{closed, open_state, half_open}
use relprim.Outcome.{Outcome, returned, raised}
use relprim.CircuitBreaker.{CircuitBreaker, BreakerState, before_call, open_error}
use relprim.CircuitBreaker.Invariant.{IsValid}

-- The decision that the class comment describes, as a specification apart from the code.
pub data Admission : Type 0 where
  admit probe : Admission
  reject : Option Seconds → Admission

-- An open breaker waits for the rest of the recovery timeout, counted from its opening.
abbrev pub waiting : Seconds → Seconds → Seconds → Admission
waiting timeout opened now =
    if leb_ℤ (opened +ℤ timeout) now then probe else reject (some (opened +ℤ timeout -ℤ now))

abbrev pub since : Option Seconds → Seconds
since none = pos 0
since (some t) = t

abbrev pub admission : CircuitBreaker → Seconds → BreakerState → Admission
admission b now s = elim s.state [
  | closed ↦ admit
  | open_state ↦ waiting (pos b.recovery_timeout_seconds) (since s.opened_at) now
  | half_open ↦ if s.half_open_probe_in_flight then reject none else probe
]

-- The outcome of `_before_call` that stands for a decision.
abbrev pub answer : CircuitBreaker → BreakerState → Admission → Outcome Bool
answer b s admit = returned false
answer b s probe = returned true
answer b s (reject wait) = raised (open_error b s wait)

-- The state that a decision leaves: only a probe changes it.
abbrev pub admitted : BreakerState → Admission → BreakerState
admitted s probe = record s { state = half_open; half_open_probe_in_flight = true }
admitted s _ = s

remaining :
    (timeout opened now : Seconds)
    → leb_ℤ timeout (now -ℤ opened) ≡ false
    → max_ℤ (pos 0) (timeout -ℤ (now -ℤ opened)) ≡ opened +ℤ timeout -ℤ now
unfolding ◌+ℤ◌ ◌-ℤ◌
remaining timeout opened now h = ground arith

due : (timeout opened now : Seconds) → leb_ℤ timeout (now -ℤ opened) ≡ leb_ℤ (opened +ℤ timeout) now
unfolding ◌+ℤ◌ ◌-ℤ◌
due timeout opened now = ground arith

-- In a valid state `_before_call` decides as the specification does, at every reading of the clock.
pub before_call-eq-admission :
    (b : CircuitBreaker) (now : Seconds) (s : BreakerState)
    → IsValid b s
    → before_call b now s ≡ (answer b s (admission b now s), admitted s (admission b now s))
unfolding before_call
before_call-eq-admission b now s h = ground (
  arith,
  remaining (pos b.recovery_timeout_seconds) (since s.opened_at) now,
  due (pos b.recovery_timeout_seconds) (since s.opened_at) now,
)
