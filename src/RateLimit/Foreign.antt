-- ===== src/RateLimit/Foreign.antt =====
-- Evaluating a rate-limit policy never raises an OperationExecutionError, whatever the extractor does.
use relprim.Prelude.{inl, inr, Option, none, some, Bool-cases}
use relprim.Prelude.Int.{pos, pos_part, ltb_ℤ}
use relprim.Values.{
  Seconds, seconds_of_int, finite, infinity, neg_infinity, nan, null, bool, int, float, str,
  PyObject, scalar, other,
}
use relprim.Errors.{Exception, no_cause, is_instance, retry_after_extraction_error}
use relprim.Outcome.{Outcome, returned, raised, interrupted, bind_outcome}
use relprim.Checks.{int_overflows}
use relprim.Outcome.Safe.{Safe, bind_outcome-Safe, if-Safe, IsForeign, Anything}
use relprim.RateLimit.{
  RateLimitDecision, RateLimitPolicy, Extractor, evaluate, decide_from, check_delay_sign,
  rate_limited_with, not_rate_limited,
}

checked_delay :
    (error : Exception) (v : Seconds)
    → Safe IsForeign Anything
        (bind_outcome (check_delay_sign error v) λ delay. rate_limited_with (some delay))
unfolding check_delay_sign rate_limited_with
checked_delay error v =
    bind_outcome-Safe IsForeign Anything Anything (check_delay_sign error v)
      (λ delay. rate_limited_with (some delay))
      (if-Safe IsForeign Anything (ltb_ℤ v (pos 0))
        (raised (retry_after_extraction_error _ error no_cause)) (returned (pos_part v)) tt tt)
      (λ _ _. tt)

decide_from-Foreign :
    (error : Exception) (o : Outcome PyObject) → Safe IsForeign Anything (decide_from error o)
unfolding decide_from
decide_from-Foreign error (raised e) = tt
decide_from-Foreign error (interrupted x) = tt
decide_from-Foreign error (returned (scalar null)) = tt
decide_from-Foreign error (returned (scalar (int n))) = elim (Bool-cases (int_overflows n)) [
  | inl h ↦ rw h tt
  | inr h ↦ rw h (checked_delay error (seconds_of_int n))
]
decide_from-Foreign error (returned (scalar (float (finite v)))) = checked_delay error v
decide_from-Foreign error (returned (scalar (float infinity))) = tt
decide_from-Foreign error (returned (scalar (float neg_infinity))) = tt
decide_from-Foreign error (returned (scalar (float nan))) = tt
decide_from-Foreign error (returned (scalar (bool b))) = tt
decide_from-Foreign error (returned (scalar (str s))) = tt
decide_from-Foreign error (returned other) = tt

evaluate_with :
    (p : RateLimitPolicy) (error : Exception) (o : Option Extractor)
    → Safe IsForeign Anything (elim o as (λ _. Outcome RateLimitDecision) [
      | none ↦ rate_limited_with none
      | some extractor ↦ decide_from error (extractor error)
    ])
unfolding rate_limited_with
evaluate_with p error none = tt
evaluate_with p error (some extractor) = decide_from-Foreign error (extractor error)

pub evaluate-Foreign :
    (p : RateLimitPolicy) (error : Exception) → Safe IsForeign Anything (evaluate p error)
unfolding evaluate
evaluate-Foreign p error =
    if-Safe IsForeign Anything (is_instance error p.rate_limit_on) _ not_rate_limited
      (evaluate_with p error p.retry_after) tt
