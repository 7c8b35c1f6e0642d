-- ===== src/RateLimit/Evaluation.antt =====
-- What `RateLimitPolicy.evaluate` may answer.
use relprim.Prelude.{
  ℕ, ◌≡◌, inl, inr, Bool, true, false, none, some, arith, if◌then◌else◌, Bool-cases,
}
use relprim.Prelude.Int.{ℤ, pos, negsuc, ltb_ℤ}
use relprim.Values.{
  Duration, seconds_of_int, finite, infinity, neg_infinity, nan, null, bool, int, float, str,
  PyObject, scalar, other, Message,
}
use relprim.Errors.{Exception, Cause, is_instance, overflow_error, retry_after_extraction_error}
use relprim.Outcome.{Interrupt, Outcome, returned, raised, interrupted, bind_outcome}
use relprim.Checks.{int_overflows}
use relprim.RateLimit.{
  RateLimitDecision, RateLimitPolicy, Extractor, evaluate, decide_from, check_delay_sign,
  rate_limited_with, new_decision, not_rate_limited, validate_retry_after,
}

-- What an extractor answers: no delay, a delay that is not negative, a number that no float can
-- hold, or anything else, which is an error; or it is interrupted.
pub data Answer : Type 0 where
  no_delay bad too_large : Answer
  delay : Duration → Answer
  stopped : Interrupt → Answer

abbrev pub answer_of_number : ℤ → Answer
answer_of_number (pos ticks) = delay ticks
answer_of_number (negsuc ticks) = bad

abbrev pub answer : Outcome PyObject → Answer
answer (returned (scalar null)) = no_delay
answer (returned (scalar (int n))) =
    if int_overflows n then too_large else answer_of_number (seconds_of_int n)
answer (returned (scalar (float (finite value)))) = answer_of_number value
answer (returned _) = bad
answer (raised e) = bad
answer (interrupted i) = stopped i

-- What evaluate does by whether the error is a rate limit, and by the answer.
pub data Evaluated (error : Exception) : Bool → Answer → Outcome RateLimitDecision → Type 0 where
  not_limited :
      {a : Answer}
      → Evaluated error false a
          (returned (record { rate_limited = false; retry_after_seconds = none }))
  without_delay :
      Evaluated error true no_delay
        (returned (record { rate_limited = true; retry_after_seconds = none }))
  with_delay :
      (d : Duration)
      → Evaluated error true
          (delay d)
          (returned (record { rate_limited = true; retry_after_seconds = some d }))
  refused :
      (m : Message) (cause : Cause)
      → Evaluated error true bad (raised (retry_after_extraction_error m error cause))
  overflowed : (m : Message) → Evaluated error true too_large (raised (overflow_error m))
  left : (i : Interrupt) → Evaluated error true (stopped i) (interrupted i)

not_negative : (n : ℕ) → ltb_ℤ (pos n) (pos 0) ≡ false
not_negative n = ground arith

negative : (n : ℕ) → ltb_ℤ (negsuc n) (pos 0) ≡ true
negative n = ground arith

checked_sign :
    (error : Exception) (value : ℤ)
    → Evaluated error true
        (answer_of_number value)
        (bind_outcome (check_delay_sign error value) (λ d. rate_limited_with (some d)))
unfolding check_delay_sign rate_limited_with new_decision
checked_sign error (pos n) = rw (not_negative n) (with_delay n)
checked_sign error (negsuc n) = rw (negative n) (refused _ _)

decide_from-Evaluated :
    (error : Exception) (o : Outcome PyObject)
    → Evaluated error true (answer o) (decide_from error o)
unfolding decide_from validate_retry_after rate_limited_with new_decision
decide_from-Evaluated error (raised e) = refused _ _
decide_from-Evaluated error (interrupted x) = left x
decide_from-Evaluated error (returned (scalar null)) = without_delay
decide_from-Evaluated error (returned (scalar (int n))) = elim (Bool-cases (int_overflows n)) [
  | inl large ↦ rw large (overflowed _)
  | inr fits ↦ rw fits (checked_sign error (seconds_of_int n))
]
decide_from-Evaluated error (returned (scalar (float (finite v)))) = checked_sign error v
decide_from-Evaluated error (returned (scalar (float infinity))) = refused _ _
decide_from-Evaluated error (returned (scalar (float neg_infinity))) = refused _ _
decide_from-Evaluated error (returned (scalar (float nan))) = refused _ _
decide_from-Evaluated error (returned (scalar (bool b))) = refused _ _
decide_from-Evaluated error (returned (scalar (str s))) = refused _ _
decide_from-Evaluated error (returned other) = refused _ _

-- evaluate decides by rate_limit_on alone whether the error is a rate limit, and asks the extractor
-- for a delay only then. It takes a number of seconds that is not negative, or no delay for None;
-- for a negative or infinite number, any other object, or an exception of the extractor it raises a
-- RetryAfterExtractionError that carries the error; for an int that no float can hold, and for
-- nothing else, an OverflowError; and it is interrupted only by the extractor.
pub evaluate-Evaluated :
    (p : RateLimitPolicy) (error : Exception) (extractor : Extractor)
    → p.retry_after ≡ some extractor
    → Evaluated error
        (is_instance error p.rate_limit_on)
        (answer (extractor error))
        (evaluate p error)
unfolding evaluate not_rate_limited new_decision
evaluate-Evaluated p error extractor e = elim (Bool-cases (is_instance error p.rate_limit_on)) [
  | inl i ↦ rw (i, e) (decide_from-Evaluated error (extractor error))
  | inr i ↦ rw i not_limited
]
