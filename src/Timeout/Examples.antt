-- ===== src/Timeout/Examples.antt =====
-- Runs under a deadline of a clock that the operations move.
use relprim.Prelude.{ℕ, ◌+◌, ◌≡◌, refl, sym, Bool, true, false, [], ltb}
use relprim.Values.{Duration}
use relprim.Errors.{timeout_error}
use relprim.Outcome.{Outcome, returned, raised, Action}
use relprim.Timeout.{TimeoutPolicy, Deadline, AsyncioTimeout, convert, run_async}
use mathlib.Core.Bool.{false≢true}
use relprim.Timeout.Own.{IsTransparent, Ending, run_async-Ending}

-- A deadline over an action that moves the clock s: one that is late is cut off at s + d.
abbrev cut_off : Bool → Duration → ℕ → Outcome ℕ × ℕ → Deadline ℕ × ℕ
cut_off true d s e = (record { outcome = raised (timeout_error []); expired = true }, s + d)
cut_off false d s e = (record { outcome = e.0; expired = false }, e.1)

abbrev clock_timeout : AsyncioTimeout ℕ ℕ
clock_timeout d operation s = cut_off (ltb (s + d) (operation s).1) d s (operation s)

uncut :
    (late : Bool) (d s : ℕ) (e : Outcome ℕ × ℕ)
    → (cut_off late d s e).0.expired ≡ false
    → ((cut_off late d s e).0.outcome, (cut_off late d s e).1) ≡ e
uncut false d s e h = refl
uncut true d s e h = absurd (false≢true (sym h))

clock_timeout-IsTransparent : IsTransparent clock_timeout
clock_timeout-IsTransparent d operation s = uncut (ltb (s + d) (operation s).1) d s (operation s)

-- Three seconds of work, and then the answer.
abbrev slow_answer : Action ℕ ℕ
slow_answer s = (returned 7, s + 3)

abbrev two_ticks : TimeoutPolicy
two_ticks = record { seconds = 2 }

expires : (run_async two_ticks clock_timeout slow_answer 10).1 ≡ 12
unfolding run_async convert
expires = refl

run_async-Ending_example :
    Ending two_ticks
      (returned 7, 13)
      (clock_timeout 2 slow_answer 10)
      (run_async two_ticks clock_timeout slow_answer 10)
run_async-Ending_example =
    run_async-Ending two_ticks clock_timeout clock_timeout-IsTransparent slow_answer 10
