-- ===== src/SqliteEvents/Connection.antt =====
-- src/relprim/sqlite_events.py: connections, and the switch to WAL.
pub mod Wal
pub mod Opened
pub mod Transacted
use relprim.Prelude.{
  ℕ, zero, suc, ◌+◌, ◌*◌, ◌/◌, String, Bool, true, false, not, ◌||◌, Option, none, some, leb,
  if◌then◌else◌,
}
use relprim.Prelude.Text.{is_blank}
use relprim.Values.{Duration, PyObject, text}
use relprim.Errors.{value_error, runtime_error, overflow_error}
use relprim.Outcome.{Outcome, returned, raised, interrupted, bind_outcome, Action, raise, ◌>>=◌}
use relprim.Checks.{float_limit, check_seconds}
use package.text.Mathlib.Text.{◌==◌ as str_eq}
use relprim.SqliteEvents.Database.{
  Database, Statement, World, Sqlite, execute, close, open_connection, on_base_exception,
}

-- The configuration of an SQLiteEventStore.
pub record SqliteEventStore : Type 0 where
  pub database : String
  pub busy_timeout_seconds : Duration

-- `SQLiteEventStore(...)` with `__post_init__`.
unfoldable pub new_store : String → PyObject → Outcome SqliteEventStore
new_store database busy_timeout_seconds =
    if is_blank database
    then raised (value_error (text "database must not be empty."))
    else if str_eq database ":memory:"
    then raised (value_error (text "SQLiteEventStore does not support ':memory:' databases."))
    else bind_outcome (check_seconds "busy_timeout_seconds" true busy_timeout_seconds)
        λ checked. returned (record { database = database; busy_timeout_seconds = checked })

-- _WAL_RETRY_INTERVAL_SECONDS
abbrev pub retry_interval : Duration
retry_interval = 10000

module _ {W : Type 0} (sqlite : Sqlite W) where
  -- `int(float(busy_timeout_seconds) * 1000)` fails on an infinite product.
  set_busy_timeout : SqliteEventStore → Action (World W) (Unit {0})
  set_busy_timeout store =
      if leb (1000 * float_limit) store.busy_timeout_seconds
      then raise (overflow_error (text "cannot convert float infinity to integer"))
      else execute sqlite Statement.busy_timeout (λ d. returned (tt, d))

  -- `_connect`
  unfoldable pub connect : SqliteEventStore → Action (World W) (Unit {0})
  unfolding set_busy_timeout
  connect store = open_connection sqlite >>= λ _. on_base_exception (set_busy_timeout store) close

  -- What the loop makes of the journal mode, and of the attempt to switch it.
  abbrev pub with_mode :
      Outcome Bool × World W
      → (World W → Option (Outcome (Unit {0}) × World W))
      → Option (Outcome (Unit {0}) × World W)
  with_mode (returned true, w) switch = some (returned tt, w)
  with_mode (returned false, w) switch = switch w
  with_mode (raised e, w) switch = some (raised e, w)
  with_mode (interrupted i, w) switch = some (interrupted i, w)

  abbrev pub unless_busy :
      ℕ
      → Outcome (Unit {0}) × World W
      → (World W → Option (Outcome (Unit {0}) × World W))
      → Option (Outcome (Unit {0}) × World W)
  unless_busy deadline (returned _, w) again = some (returned tt, w)
  unless_busy deadline (interrupted i, w) again = some (interrupted i, w)
  unless_busy deadline (raised e, w) again =
      if not (sqlite.busy e) || leb deadline (sqlite.monotonic w.rest)
      then some (raised e, w)
      else again w

  -- PRAGMA journal_mode = WAL may leave the mode as it is without an error; its answer is not read.
  abbrev pub switched_mode : W → Database → Outcome (Unit {0} × Database)
  switched_mode rest d = returned (tt, record d { wal = sqlite.switches_wal rest || d.wal })

  -- The loop of `_enable_wal`; none means that the rounds have run out.
  unfoldable pub wal_loop : ℕ → ℕ → World W → Option (Outcome (Unit {0}) × World W)
  wal_loop zero deadline w = none
  wal_loop (suc rounds) deadline w =
      with_mode (execute sqlite Statement.journal_mode (λ d. returned (d.wal, d)) w) λ w'.
        unless_busy deadline (execute sqlite Statement.set_wal (switched_mode w'.rest) w') λ w''.
          wal_loop rounds deadline (record w'' { rest = sqlite.sleep retry_interval w''.rest })

  -- Each round but the last begins before the deadline, and the sleep after it moves the clock on by at
  -- least the interval.
  abbrev pub wal_rounds : SqliteEventStore → ℕ
  wal_rounds store = suc (suc (store.busy_timeout_seconds / retry_interval))

  -- What the loop leaves. Out of rounds is an error of the model's own.
  abbrev pub looped : World W → Option (Outcome (Unit {0}) × World W) → Outcome (Unit {0}) × World W
  looped w (some result) = result
  looped w none = (raised (runtime_error (text "unreachable")), w)

  -- `_enable_wal`
  unfoldable pub enable_wal : SqliteEventStore → Action (World W) (Unit {0})
  enable_wal store w =
      looped w
        (wal_loop (wal_rounds store) (sqlite.monotonic w.rest + store.busy_timeout_seconds) w)
