-- ===== src/Decorators/Resilient/Examples.antt =====
-- A decorated callable, with simple arguments and with policies.
use relprim.Prelude.{ℕ, ◌*◌, String, ◌≡◌, refl, none, some, [], ◌∷◌}
use relprim.Prelude.Int.{pos}
use relprim.Prelude.Text.{is_blank}
use relprim.Values.{ticks_per_second, int, str, scalar, text}
use relprim.Errors.{ExceptionType, value_error}
use relprim.Outcome.{returned, raised}
use relprim.Checks.{exception_class, tuple_of}
use relprim.Decorators.{no_timeout}
use relprim.Decorators.Resilient.{
  Callable, Arguments, Policies, resilient, operation_name_for, decorate,
}
use relprim.Decorators.Resilient.Assembled.{assembled}
use relprim.Decorators.Resilient.Configured.{IsConfigured, resilient-IsConfigured}
use relprim.Decorators.Resilient.Shortcuts.{Settings, Checked}

-- Callables that return a number; the calls have a text as their argument.
abbrev fetch : Callable ℕ ℕ
fetch = record {
  dunder_name = some (scalar (str "fetch"));
  class_name = "function";
  call = λ s. (returned 3, s);
}

-- A partial object has no name of its own.
abbrev backup : Callable ℕ ℕ
backup = record { dunder_name = none; class_name = "partial"; call = λ s. (returned 4, s) }

backup_name : operation_name_for backup ≡ returned "partial"
unfolding operation_name_for is_blank
backup_name = refl

abbrev plain : Arguments String ℕ ℕ
plain = record {
  name = none;
  retries = none;
  retry_on = none;
  retry = none;
  timeout = no_timeout;
  fallback = none;
  fallbacks = none;
  circuit_breaker = none;
  validation = none;
  events = none;
  idempotency = none;
  idempotency_key = none;
  idempotency_store = some 0;
  idempotency_ttl = none;
  rate_limit = none;
  rate_limit_on = none;
  retry_after = none;
  max_rate_limit_wait = none;
}

-- A store without a key is refused.
key_missing :
    resilient plain
    ≡ raised (value_error (text "idempotency_store and idempotency_ttl require idempotency_key."))
unfolding resilient
key_missing = refl

abbrev settings : Settings String ℕ ℕ
settings = record {
  more_retries = 1;
  retry_on = none;
  timeout = scalar (int (pos 2));
  fallback = backup;
  idempotency_key = λ request. returned (scalar (str request));
  idempotency_ttl = scalar (int (pos 60));
  rate_limit_on = tuple_of (exception_class ExceptionType.timeout_error ∷ []);
  retry_after = none;
  max_rate_limit_wait = scalar (int (pos 0));
}

abbrev checked : Checked
checked = record {
  retry_on = ExceptionType.exception ∷ [];
  seconds = 2 * ticks_per_second;
  fallback_name = "partial";
  ttl_seconds = 60 * ticks_per_second;
  rate_limit_on = ExceptionType.timeout_error ∷ [];
  max_wait_seconds = 0;
}

abbrev stored : Arguments String ℕ ℕ
stored = record plain { idempotency_store = none; name = some "load" }

abbrev no_policies : Policies String ℕ ℕ
no_policies = record {
  retry_policy = none;
  timeout_policy = none;
  fallback_chain = none;
  idempotency_policy = none;
  rate_limit_policy = none;
}

stored_accepted : resilient stored ≡ returned (decorate stored no_policies)
unfolding resilient is_blank
stored_accepted = refl

fetch_decorated :
    decorate stored no_policies fetch ≡ returned (assembled stored no_policies "load" fetch)
unfolding decorate is_blank
fetch_decorated = refl

resilient-IsConfigured_example :
    IsConfigured stored fetch (assembled stored no_policies "load" fetch)
resilient-IsConfigured_example =
    resilient-IsConfigured stored (decorate stored no_policies) fetch
      (assembled stored no_policies "load" fetch) stored_accepted fetch_decorated
