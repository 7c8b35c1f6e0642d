-- ===== src/Decorators/Resilient/Shortcuts.antt =====
-- The simple arguments of `resilient` against the policies that they stand for.
use relprim.Prelude.{ℕ, suc, ◌+◌, String, ◌≡◌, true, false, Option, none, some, List, [], ◌∷◌}
use relprim.Prelude.Int.{pos}
use relprim.Values.{Duration, int, PyObject, scalar}
use relprim.Errors.{ExceptionType}
use relprim.Outcome.{Outcome, returned}
use relprim.Checks.{check_seconds, check_exception_types, TypesObject}
use relprim.RateLimit.{Extractor}
use relprim.Fallback.{default_policy}
use relprim.Idempotency.{IdempotencyPolicy}
use relprim.Idempotency as Idempotencies
use relprim.Decorators.{timeout_object, timeout_policy, default_backoff, resolved_retry_on}
use relprim.Decorators.Resilient.{Callable, Arguments, operation_name_for}

-- Values of the simple arguments. There is one retry at least.
pub record Settings (A E R : Type 0) : Type 0 where
  pub more_retries : ℕ
  pub retry_on : Option TypesObject
  pub timeout : PyObject
  pub fallback : Callable E R
  pub idempotency_key : A → Outcome PyObject
  pub idempotency_ttl : PyObject
  pub rate_limit_on : TypesObject
  pub retry_after : Option Extractor
  pub max_rate_limit_wait : PyObject

-- What the checks make of them, and the name of the fallback.
pub record Checked : Type 0 where
  pub retry_on : List ExceptionType
  pub seconds : Duration
  pub fallback_name : String
  pub ttl_seconds : Duration
  pub rate_limit_on : List ExceptionType
  pub max_wait_seconds : Duration

module _ {A E R : Type 0} where
  pub record PassesChecks (s : Settings A E R) (c : Checked) : Type 0 where
    pub types :
        check_exception_types "retry_on" (resolved_retry_on s.retry_on) ≡ returned c.retry_on
    pub timeout : check_seconds "timeout" false s.timeout ≡ returned c.seconds
    pub name : operation_name_for s.fallback ≡ returned c.fallback_name
    pub ttl : check_seconds "idempotency_ttl" false s.idempotency_ttl ≡ returned c.ttl_seconds
    pub limit_types :
        check_exception_types "rate_limit_on" s.rate_limit_on ≡ returned c.rate_limit_on
    pub wait :
        check_seconds "max_rate_limit_wait" true s.max_rate_limit_wait ≡ returned c.max_wait_seconds

  -- The arguments with the simple ones set.
  abbrev pub simple : Arguments A E R → Settings A E R → Arguments A E R
  simple a s = record a {
    retries = some (scalar (int (pos (suc s.more_retries))));
    retry_on = s.retry_on;
    retry = none;
    timeout = timeout_object s.timeout;
    fallback = some s.fallback;
    fallbacks = none;
    idempotency = none;
    idempotency_key = some s.idempotency_key;
    idempotency_ttl = some s.idempotency_ttl;
    rate_limit = none;
    rate_limit_on = some s.rate_limit_on;
    retry_after = s.retry_after;
    max_rate_limit_wait = some s.max_rate_limit_wait;
  }

  -- The arguments with policies in their place.
  abbrev pub advanced : Arguments A E R → Settings A E R → Checked → Arguments A E R
  advanced a s c = record a {
    retries = none;
    retry_on = none;
    retry = some (record {
      max_attempts = suc s.more_retries + 1;
      backoff = default_backoff;
      retry_on = c.retry_on;
    });
    timeout = timeout_policy (record { seconds = c.seconds });
    fallback = none;
    fallbacks = some (record {
      candidates = record { name = c.fallback_name; operation = s.fallback.call } ∷ [];
      policy = default_policy;
    });
    idempotency = some (record {
      key_factory = s.idempotency_key;
      store = a.idempotency_store;
      ttl_seconds = c.ttl_seconds;
    });
    idempotency_key = none;
    idempotency_store = none;
    idempotency_ttl = none;
    rate_limit = some (record {
      rate_limit_on = c.rate_limit_on;
      retry_after = s.retry_after;
      max_wait_seconds = c.max_wait_seconds;
    });
    rate_limit_on = none;
    retry_after = none;
    max_rate_limit_wait = none;
  }
