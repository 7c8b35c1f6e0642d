-- ===== src/RateLimit/Examples.antt =====
-- Runs of src/relprim/rate_limit.py on concrete errors, and uses of its theorems.
use relprim.Prelude.{◌^◌, ◌≡◌, refl, true, some, [], ◌∷◌}
use relprim.Prelude.Int.{pos}
use relprim.Values.{int, scalar, text}
use relprim.Errors.{ExceptionType, Exception, is_instance, overflow_error, timeout_error}
use relprim.Outcome.{returned, raised}
use relprim.Checks.{
  float_limit, int_overflows, check_seconds, check_exception_types, exception_class, tuple_of,
}
use relprim.RateLimit.{RateLimitPolicy, Extractor, evaluate, new_policy}
use relprim.RateLimit.Evaluation.{Evaluated, answer, too_large, evaluate-Evaluated}

abbrev two_seconds : Extractor
two_seconds e = returned (scalar (int (pos 2)))

abbrev huge : Extractor
huge e = returned (scalar (int (pos (10 ^ 309))))

abbrev policy : Extractor → RateLimitPolicy
policy extractor = record {
  rate_limit_on = ExceptionType.timeout_error ∷ [];
  retry_after = some extractor;
  max_wait_seconds = 60000000;
}

abbrev busy : Exception
busy = timeout_error (text "busy")

busy_is_rate_limit : is_instance busy (ExceptionType.timeout_error ∷ []) ≡ true
unfolding is_instance
busy_is_rate_limit = refl

policy_built :
    new_policy
      (tuple_of (exception_class ExceptionType.timeout_error ∷ []))
      (some two_seconds)
      (scalar (int (pos 60)))
    ≡ returned (policy two_seconds)
unfolding new_policy check_exception_types check_seconds
policy_built = refl

evaluate-Evaluated_example :
    Evaluated busy
      (is_instance busy (ExceptionType.timeout_error ∷ []))
      (answer (huge busy))
      (evaluate (policy huge) busy)
evaluate-Evaluated_example = evaluate-Evaluated (policy huge) busy huge refl

huge_overflows : answer (huge busy) ≡ too_large
unfolding int_overflows float_limit
huge_overflows = refl

huge_raises :
    evaluate (policy huge) busy ≡ raised (overflow_error (text "int too large to convert to float"))
unfolding evaluate is_instance int_overflows float_limit
huge_raises = refl
