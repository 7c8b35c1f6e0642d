-- ===== src/Lib.antt =====
-- relprim: reliability primitives for asynchronous operations, in one Python package without
-- dependencies (src/relprim).
--
-- The parts and their files
--   Values, Prelude: numbers, texts, the JSON scalars and the unchecked Python objects.
--   Outcome: how a call ends, and calls that change a state. A call returns, raises an Exception, or
--     is left by a BaseException that no `except Exception` sees, such as a cancellation.
--   Errors: src/relprim/errors.py, the exceptions with the data they carry, their classes, and
--     isinstance.
--   Checks: src/relprim/_checks.py, the guards that every policy calls from __post_init__.
--   Report: src/relprim/report.py, the data and the properties; Report.Build is the construction.
--   CircuitBreaker: src/relprim/circuit_breaker.py. The configuration and the mutable state are two
--     records; before_call, after_success, after_failure and reset are _before_call,
--     _after_success, _after_failure and reset. CircuitBreaker.Tasks has the tasks of one breaker as
--     a step relation.
--   Retry: src/relprim/retry.py, the backoff and the loops of run and run_async.
--   RateLimit, Fallback, Validation, Timeout: the policies of the files of the same names.
--   Events: src/relprim/events.py, the events, the sinks and the emitter.
--   Operation: src/relprim/operation.py and result.py. Operation has the configuration,
--     Operation.PlanMetadata the retry plan and the metadata functions, Operation.Plan the methods
--     _retry_plan_for_exception to _rate_limit_retry_plan, Operation.Attempt one attempt, the
--     candidates and the events, and Operation.Progress, .Failure, .Fallbacks and .Run the branches
--     of _run_without_idempotency: the end with its report, the handler of a failed attempt, the
--     fallback branch and the loop. Operation.Reported says what a report tells.
--   Idempotency: src/relprim/idempotency.py. A future is a number, and the store has the state of
--     each. claim is the critical section of execute, join_status and joined_outcome are what a
--     joined caller makes of its future, end_owner is what the owner does when its operation ends.
--     Idempotency.Tasks has the tasks of one store as a step relation, Exclusive, Owned and Abandoned what
--     follows for it. A policy names its store by a number. Idempotency.Execute is
--     execute as the loop of one caller, by the rounds that it may take, and Operation.Idempotent is
--     run with a policy; a round follows another only when the owner of the key was cancelled.
--   Decorators: src/relprim/decorators.py, the retry, timeout and rate-limit policies that resilient
--     makes of its arguments, by the constructors of those policies. Decorators.Resilient has the
--     inferred name, the other policies, resilient itself and its decorator.
--   SqliteEvents: src/relprim/sqlite_events.py. SqliteEvents.Database has what the file uses of
--     sqlite3: tables, transactions, and statements any of which may fail; Connection has _connect
--     and _enable_wal, Schema has _initialize_sync, Query has the query of _history_sync with its
--     positional parameters, Encoding has the payloads and timestamps of rows, Store has emit,
--     history and delete_before. Log is the abstract view, a list of stored events. sqlite3 and json are
--     modelled as they are documented: AUTOINCREMENT gives the successor of its sequence, a query
--     answers as it likes where a value has not the type of its column, and the text of a payload is the JSON value it spells;
--     the pragma that switches to WAL may leave the mode as it is without an error.
--   Adapters: src/relprim/pydantic.py, jsonschema.py and opentelemetry.py. The packages are
--     parameters: a model, a validator of a schema, and a span.
--   Outcome.Safe and the modules called Foreign: which exceptions a call can raise.
-- The policies are independent of one another. An operation (src/relprim/operation.py) composes
-- them: each attempt runs the breaker around the timeout around the callable, then the validators;
-- its failure goes to the rate-limit policy, then to the retry policy, and at last to the fallback
-- chain.
--
-- Conventions
--   Seconds are whole microseconds, exact where Python has floats; a duration that has passed its
--   check is a natural number. The limit of floats is kept where the code depends on it, as
--   OverflowError or as an infinite value. Multipliers are millionths.
--   A constructor that can raise is a function new_... into Outcome; what it stores is the record.
--   A lock is never held over an await, so a critical section is one step.
--   Loops are structural recursion over the rounds or the items that are left; only the
--   switch to WAL counts rounds.
--   The local variables of _run_without_idempotency are a record that its steps hand on. Seconds in
--   metadata are floats, also where Python keeps an int that is equal to it.
--   In a row of the event store a timestamp stands as its instant in UTC and a payload as its JSON
--   value: the texts that the code writes have a fixed width, so they are ordered as their instants.
--   The loop that switches to WAL takes busy_timeout_seconds / 0.01 + 2 rounds: each but the last
--   starts before the deadline, and the sleep between them takes 0.01 seconds at least. A statement
--   of SQLite fails as a parameter says; between BEGIN and COMMIT no other connection writes.
--   No class outside the package derives from one of its exception classes.
--   What comes from outside is a parameter: the callables, the clock, the sleeper, random draws,
--   asyncio.timeout and the extractor of a retry-after value.
--
-- Not modelled: the spelling of numbers in messages, tracebacks and __cause__ chains beyond the
-- fields that the exceptions carry, the to_dict exports, the guards around the imports of optional
-- packages, and the limit of int digits that Python can spell.
pub mod Prelude
pub mod Values
pub mod Report
pub mod Errors
pub mod Outcome
pub mod Checks
pub mod CircuitBreaker
pub mod Retry
pub mod RateLimit
pub mod Fallback
pub mod Validation
pub mod Timeout
pub mod Events
pub mod Operation
pub mod Idempotency
pub mod Decorators
pub mod SqliteEvents
pub mod Adapters
