-- ===== src/Retry.antt =====
-- src/relprim/retry.py: the backoff, and the loop of a retry policy over any operation. Random
-- numbers and sleeping are arguments: `random.random()` yields n / 2 ** 53 for a draw n below 2 ** 53.
pub mod Backoff
pub mod Monotone
pub mod Script
pub mod Loop
mod Examples
use relprim.Prelude.{
  ℕ, zero, suc, ◌+◌, ◌*◌, ◌/◌, ◌%◌, ◌^◌, Bool, true, false, ◌&&◌, Option, none, some, List, [], ◌∷◌,
  ltb, leb, if◌then◌else◌,
}
use relprim.Prelude.Int.{ℤ, pos, pos_part, ltb_ℤ}
use relprim.Values.{
  Seconds, Duration, ticks_per_second, seconds_of_int, finite, int, float, PyObject, scalar, lit,
  number, text,
}
use relprim.Errors.{
  ExceptionType, Exception, is_instance, value_error, type_error, runtime_error, overflow_error,
  retry_error,
}
use relprim.Outcome.{Outcome, returned, raised, interrupted, bind_outcome, Action, ◌>>◌}
use relprim.Checks.{
  float_limit, int_overflows, check_seconds, check_exception_types, check_int, TypesObject,
}

-- `multiplier` counts millionths. `exact` says that the base delay and the multiplier are both ints,
-- whose powers and products Python computes with no bound.
pub record ExponentialBackoff : Type 0 where
  pub base_delay_seconds : Duration
  pub max_delay_seconds : Duration
  pub multiplier : ℕ
  pub jitter : Bool
  pub exact : Bool

is_int : PyObject → Bool
is_int (scalar (int n)) = true
is_int _ = false

-- A finite number of at least 1, in millionths.
check_multiplier_value : Seconds → Outcome ℕ
check_multiplier_value m =
    if ltb_ℤ m (pos ticks_per_second)
    then raised
        (value_error (text "multiplier must be a finite number greater than or equal to 1."))
    else returned (pos_part m)

check_multiplier : PyObject → Outcome ℕ
unfolding check_multiplier_value int_overflows seconds_of_int
check_multiplier (scalar (int n)) =
    if int_overflows n
    then raised (overflow_error (text "int too large to convert to float"))
    else check_multiplier_value (seconds_of_int n)
check_multiplier (scalar (float (finite m))) = check_multiplier_value m
check_multiplier (scalar (float _)) =
    raised (value_error (text "multiplier must be a finite number greater than or equal to 1."))
check_multiplier _ = raised (type_error (text "multiplier must be an int or float."))

check_order : Duration → Duration → Outcome (Unit {0})
check_order base limit =
    if ltb limit base
    then raised (value_error (text "base_delay_seconds must not exceed max_delay_seconds."))
    else returned tt

-- `ExponentialBackoff(...)` with `__post_init__`.
unfoldable pub new_backoff : PyObject → PyObject → PyObject → Bool → Outcome ExponentialBackoff
unfolding check_multiplier check_order is_int
new_backoff base limit multiplier jitter =
    bind_outcome (check_seconds "base_delay_seconds" true base) λ base_delay_seconds.
      bind_outcome (check_seconds "max_delay_seconds" true limit) λ max_delay_seconds.
        bind_outcome (check_multiplier multiplier) λ m.
          bind_outcome (check_order base_delay_seconds max_delay_seconds) λ _. returned (record {
            base_delay_seconds = base_delay_seconds;
            max_delay_seconds = max_delay_seconds;
            multiplier = m;
            jitter = jitter;
            exact = is_int base && is_int multiplier;
          })

-- Whether `base_delay_seconds * multiplier ** k` raises OverflowError: a float power that reaches the
-- limit of floats, or an int power that meets a float base.
unfoldable pub power_overflows : ExponentialBackoff → ℕ → Bool
power_overflows b k =
    if b.exact then false else leb (float_limit * ticks_per_second ^ k) (b.multiplier ^ k)

-- The product, to the microsecond below.
unfoldable pub scaled : ExponentialBackoff → ℕ → Duration
scaled b k = b.base_delay_seconds * b.multiplier ^ k / ticks_per_second ^ k

abbrev pub min_duration : Duration → Duration → Duration
min_duration a b = if ltb b a then b else a

-- The delay before jitter.
unfoldable pub capped : ExponentialBackoff → ℕ → Duration
capped b k =
    min_duration (if power_overflows b k then b.max_delay_seconds else scaled b k)
      b.max_delay_seconds

abbrev pub random_steps : ℕ
random_steps = 2 ^ 53

-- random.uniform(0, delay)
unfoldable pub uniform : Duration → ℕ → Duration
uniform delay draw = delay * (draw % random_steps) / random_steps

unfoldable pub delay_for_retry : ExponentialBackoff → ℕ → ℕ → Outcome Duration
unfolding capped uniform
delay_for_retry b draw zero =
    raised (value_error (text "retry_number must be greater than or equal to 1."))
delay_for_retry b draw (suc k) =
    let delay = capped b k in
    returned (if b.jitter && ltb 0 delay then uniform delay draw else delay)

-- Whether it calls random.uniform.
unfoldable pub takes_draw : ExponentialBackoff → ℕ → Bool
unfolding capped
takes_draw b zero = false
takes_draw b (suc k) = b.jitter && ltb 0 (capped b k)

pub record RetryPolicy : Type 0 where
  pub max_attempts : ℕ
  pub backoff : ExponentialBackoff
  pub retry_on : List ExceptionType

abbrev check_attempts : ℤ → Outcome ℕ
check_attempts n =
    if ltb_ℤ n (pos 1)
    then raised (value_error (text "max_attempts must be greater than or equal to 1."))
    else returned (pos_part n)

-- `RetryPolicy(...)` with `__post_init__`.
unfoldable pub new_policy : PyObject → ExponentialBackoff → TypesObject → Outcome RetryPolicy
new_policy attempts backoff types = bind_outcome (check_int "max_attempts" attempts) λ n.
    bind_outcome (check_attempts n) λ max_attempts.
      bind_outcome (check_exception_types "retry_on" types) λ retry_on.
        returned (record { max_attempts = max_attempts; backoff = backoff; retry_on = retry_on })

-- What a policy takes from outside: its sleeper, and the next random draw.
pub record Environment (S : Type 0) : Type 0 where
  pub sleep : Duration → Action S (Unit {0})
  pub draw : S → ℕ × S

-- `self.backoff.delay_for_retry(attempt_number)` and the sleeper.
sleep_before_next : {S : Type 0} → RetryPolicy → Environment S → ℕ → Action S (Unit {0})
sleep_before_next p env attempt_number s =
    let (n, s') = if takes_draw p.backoff attempt_number then env.draw s else (0, s) in
    elim (delay_for_retry p.backoff n attempt_number) [
      | returned delay ↦ env.sleep delay s'
      | raised e ↦ (raised e, s')
      | interrupted i ↦ (interrupted i, s')
    ]

-- After the loop.
exhausted : {A : Type 0} → RetryPolicy → Option Exception → Outcome A
exhausted p none =
    raised (runtime_error (text "RetryPolicy reached an invalid state without an exception."))
exhausted p (some cause) = raised (
    retry_error (lit "Operation failed after " ∷ number p.max_attempts ∷ lit " attempt(s)." ∷ [])
      p.max_attempts cause)

module _ {S A : Type 0} (p : RetryPolicy) (env : Environment S) (operation : Action S A) where
  -- `for attempt_number in range(1, max_attempts + 1)`, with the rounds that are left.
  attempts_loop : ℕ → ℕ → Option Exception → Action S A
  unfolding exhausted sleep_before_next
  attempts_loop zero attempt_number last s = (exhausted p last, s)
  attempts_loop (suc rounds) attempt_number last s =
      let (o, s') = operation s in
      elim o [
        | returned a ↦ (returned a, s')
        | interrupted i ↦ (interrupted i, s')
        | raised e ↦ elim (is_instance e p.retry_on) [
          | false ↦ (raised e, s')
          | true ↦ elim (leb p.max_attempts attempt_number) [
            | true ↦ (exhausted p (some e), s')
            | false ↦
                (sleep_before_next p env attempt_number
                    >> attempts_loop rounds (attempt_number + 1) (some e))
                  s'
          ]
        ]
      ]

  -- `RetryPolicy.run`, with `sleeper` in the environment.
  unfoldable pub run : Action S A
  unfolding attempts_loop
  run = attempts_loop p.max_attempts 1 none

  -- `RetryPolicy.run_async`, with `async_sleeper` in the environment.
  unfoldable pub run_async : Action S A
  unfolding attempts_loop
  run_async = attempts_loop p.max_attempts 1 none
