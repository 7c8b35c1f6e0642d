-- ===== src/Operation/Run/Examples.antt =====
-- A run of src/relprim/operation.py that retries once and succeeds, and a use of its theorem.
use relprim.Prelude.{
  ℕ, ◌+◌, ◌≡◌, refl, false, none, some, List, [], ◌∷◌, ◌++◌, map, ◌==◌, if◌then◌else◌,
}
use relprim.Prelude.Int.{pos, ◌-ℤ◌}
use relprim.Prelude.Text.{is_blank}
use relprim.Values.{Duration, offset, Datetime, text}
use relprim.Errors.{ExceptionType, is_instance, timeout_error}
use relprim.Outcome.{returned, raised, Action, pure}
use relprim.Checks.{check_seconds, check_aware, freeze_json_scalars}
use relprim.CircuitBreaker.{Shared, initial}
use relprim.Retry.{
  RetryPolicy, ExponentialBackoff, Environment, delay_for_retry, power_overflows, scaled,
}
use relprim.Events.{EventEmitter, StructuredEvent, EventType}
use relprim.Outcome.Safe.{Safe}
use relprim.Operation.{AsyncOperation, Host}
use relprim.Operation.Reported.{Reported, IsSuccess}
use relprim.Operation.Run.{run_without_idempotency}
use relprim.Operation.Run.Reports.{run-Reported}

-- The events that a sink has got, the sleeps, and the number of calls.
pub record Rest : Type 0 where
  pub events : List StructuredEvent
  pub slept : List Duration
  pub calls : ℕ

abbrev World : Type 0
World = Shared Rest

abbrev noon : Datetime
noon = record { wall = pos 0; tzinfo = offset (pos 0) }

abbrev sink : StructuredEvent → Action World (Unit {0})
sink event w =
    (returned tt, record w { rest = record w.rest { events = w.rest.events ++ event ∷ [] } })

abbrev emitter : EventEmitter World
emitter = record { sinks = sink ∷ []; timestamp_factory = pure noon }

-- The first call is too slow, the second one returns 7.
abbrev flaky : Action World ℕ
flaky w = (
  if w.rest.calls == 0 then raised (timeout_error (text "slow")) else returned 7,
  record w { rest = record w.rest { calls = w.rest.calls + 1 } },
)

abbrev policy : RetryPolicy
policy = record {
  max_attempts = 3;
  backoff = record {
    base_delay_seconds = 100000;
    max_delay_seconds = 10000000;
    multiplier = 2000000;
    jitter = false;
    exact = false;
  };
  retry_on = ExceptionType.timeout_error ∷ [];
}

abbrev load : AsyncOperation Rest ℕ
load = record {
  name = "load";
  operation = flaky;
  retry_policy = some policy;
  timeout_policy = none;
  fallback_chain = none;
  circuit_breaker = none;
  validation_policy = none;
  event_emitter = some emitter;
  rate_limit_policy = none;
}

abbrev host : Host World ℕ
host = record {
  utc_now = λ w. (noon, w);
  perf_counter = λ w. (pos 0, w);
  asyncio_timeout =
      λ d action w. let (o, w') = action w in (record { outcome = o; expired = false }, w');
  environment = record {
    sleep =
        λ d w. (returned tt, record w { rest = record w.rest { slept = w.rest.slept ++ d ∷ [] } });
    draw = λ w. (0, w);
  };
}

abbrev fresh : World
fresh = record {
  breaker = initial;
  now = pos 0;
  rest = record { events = []; slept = []; calls = 0 };
}

run-Reported_example :
    Safe (Reported load) (IsSuccess load) (run_without_idempotency load host fresh).0
run-Reported_example = run-Reported load host fresh (((λ event s. tt), tt), λ s. tt) (λ d u. tt)

abbrev kinds : World → List EventType
kinds w = map (λ e. e.event_type) w.rest.events

retried_once :
    kinds (run_without_idempotency load host fresh).1
    ≡ EventType.operation_started ∷ EventType.attempt_started ∷ EventType.attempt_failed
      ∷ EventType.retry_scheduled ∷ EventType.attempt_started ∷ EventType.attempt_succeeded
      ∷ EventType.operation_succeeded ∷ []
unfolding run_without_idempotency is_blank check_aware freeze_json_scalars is_instance
    delay_for_retry check_seconds ◌-ℤ◌ relprim.Retry.takes_draw
retried_once = refl
