-- ===== src/Operation/Idempotent/Examples.antt =====
-- Two calls of an operation under one key.
use relprim.Prelude.{
  ℕ, ◌+◌, String, ◌≡◌, refl, true, false, none, some, [], ◌∷◌, ◌++◌, arith, ◌==◌, if◌then◌else◌,
}
use relprim.Prelude.Int.{pos, ◌+ℤ◌, ◌-ℤ◌, leb_ℤ}
use relprim.Prelude.Text.{is_blank}
use relprim.Values.{finite, null, bool, float, str, scalar, Metadata, offset, Datetime}
use relprim.Report.{ExecutionStatus, AttemptStatus}
use relprim.Outcome.{returned}
use relprim.Checks.{check_seconds, check_aware, freeze_json_scalars}
use relprim.Operation.Idempotent.{IdempotentOperation, run}
use relprim.Operation.Idempotent.Marked.{IsMarked, IsBuilt}
use relprim.Operation.Idempotent.Replayed.{run_replays}
use relprim.Idempotency.{
  Store, empty, IdempotencyStatus, IdempotencyPolicy, claim, own, publish, key_of, pending,
}
use relprim.Prelude.Dict.{set_item, get_item, keep}
use relprim.Report.Build.{new_report}
use relprim.Idempotency.Replay.{IsOwner}
use relprim.CircuitBreaker.{Shared, initial}
use relprim.Operation.{AsyncOperation, Host, OperationResult}
use relprim.Operation.Run.{run_without_idempotency}
use relprim.Idempotency.Execute.{Site}
use relprim.Idempotency.Execute.Again.{IsSite}

-- The world of a process is its store, and the number of calls that were made.
pub record Process : Type 0 where
  pub store : Store (OperationResult ℕ)
  pub calls : ℕ

abbrev World : Type 0
World = Shared Process

abbrev noon : Datetime
noon = record { wall = pos 0; tzinfo = offset (pos 0) }

abbrev site : Site (OperationResult ℕ) World
site = record {
  store_of = λ w. w.rest.store;
  with_store = λ t w. record w { rest = record w.rest { store = t } };
  clock = λ w. w.now;
  wait = λ f w. (returned tt, w);
}

site-IsSite : IsSite site
site-IsSite = record { store_of-with_store = λ t s. refl; clock-with_store = λ t s. refl }

abbrev count : AsyncOperation Process ℕ
count = record {
  name = "count";
  operation = λ w. (returned 7, record w { rest = record w.rest { calls = w.rest.calls + 1 } });
  retry_policy = none;
  timeout_policy = none;
  fallback_chain = none;
  circuit_breaker = none;
  validation_policy = none;
  event_emitter = none;
  rate_limit_policy = none;
}

abbrev host : Host World ℕ
host = record {
  utc_now = λ w. (noon, w);
  perf_counter = λ w. (pos 0, w);
  asyncio_timeout =
      λ d action w. let (o, w') = action w in (record { outcome = o; expired = false }, w');
  environment = record { sleep = λ d w. (returned tt, w); draw = λ w. (0, w) };
}

abbrev fresh : World
fresh = record { breaker = initial; now = pos 0; rest = record { store = empty; calls = 0 } }

abbrev unvalidated : Metadata
unvalidated =
    ("fallback_used", bool false)
    ∷ ("circuit_breaker_open", bool false)
    ∷ ("validation_performed", bool false)
    ∷ ("validation_valid", null)
    ∷ ("validation_validator_name", null)
    ∷ ("validation_reason", null)
    ∷ []

abbrev counted : OperationResult ℕ
counted = record {
  value = 7;
  report = record {
    operation_name = "count";
    status = ExecutionStatus.succeeded;
    started_at = noon;
    duration_seconds = 0;
    attempts =
        record {
          attempt_number = 1;
          status = AttemptStatus.succeeded;
          started_at = noon;
          duration_seconds = 0;
          error = none;
          metadata = unvalidated;
          fallback = false;
        }
        ∷ [];
    metadata =
        unvalidated
        ++ (("rate_limit_encountered", bool false)
            ∷ ("rate_limit_wait_seconds", float (finite (pos 0)))
            ∷ ("rate_limit_wait_exceeded", bool false)
            ∷ []);
  };
}

abbrev per_hour : IdempotencyPolicy String
per_hour = record {
  key_factory = λ key. returned (scalar (str key));
  store = none;
  ttl_seconds = 3600000000;
}

abbrev count_once : IdempotentOperation String Process ℕ
count_once = record { operation = count; idempotency_policy = some per_hour }

-- The store while task 1 owns the key.
abbrev occupied : Store (OperationResult ℕ)
occupied = record {
  entries = ("job", record { future = 0; owner_task = some 1; expires_at = none }) ∷ [];
  futures = λ g. if g == 0 then pending else pending;
  next = 1;
}

abbrev with_rest : Store (OperationResult ℕ) → ℕ → World
with_rest store calls = record fresh { rest = record { store = store; calls = calls } }

claimed : claim "job" (some 1) (pos 0) empty ≡ (own 0, occupied)
unfolding claim set_item get_item keep
claimed = refl

ran :
    run_without_idempotency count host (with_rest occupied 0)
    ≡ (returned counted, with_rest occupied 1)
unfolding run_without_idempotency is_blank check_aware freeze_json_scalars check_seconds ◌-ℤ◌
ran = refl

built : IsBuilt counted
unfolding new_report is_blank check_seconds check_aware freeze_json_scalars
built = refl

found : IsOwner "job" 0 (some 1) occupied
unfolding get_item
found = (refl, refl)

key_given : key_of per_hour "job" ≡ returned "job"
unfolding key_of is_blank
key_given = refl

named : is_blank "job" ≡ false
unfolding is_blank
named = refl

abbrev published : Store (OperationResult ℕ)
published = publish "job" 0 counted (pos 0) 3600000000 occupied

-- Half an hour later, by task 2.
abbrev later : World
later = record {
  breaker = initial;
  now = pos 1800000000;
  rest = record { store = published; calls = 5 };
}

still_fresh : leb_ℤ (pos 0 +ℤ pos 3600000000) (pos 1800000000) ≡ false
unfolding ◌+ℤ◌
still_fresh = refl

run_replays_example :
    (first : OperationResult ℕ) × (second : OperationResult ℕ) × (run 1 host site count_once "job"
        (some 1)
        fresh
      ≡ some (returned first, with_rest published 1))
    × IsMarked IdempotencyStatus.executed false counted first
    × (run 1 host site count_once "job" (some 2) later
        ≡ some (
          returned second,
          site.with_store (claim "job" (some 2) (pos 1800000000) published).1 later,
        ))
    × IsMarked IdempotencyStatus.replayed true counted second
run_replays_example =
    run_replays host site site-IsSite count_once per_hour "job" (some 1) (some 2) 0 0 0 fresh
      (with_rest occupied 1) later occupied "job" counted refl key_given named (omega arith) claimed
      ran built found refl still_fresh
