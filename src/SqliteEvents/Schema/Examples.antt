-- ===== src/SqliteEvents/Schema/Examples.antt =====
-- Runs of the initialization of an event store.
use relprim.Prelude.{
  ℕ, ◌+◌, ◌≤◌, ◌≡◌, refl, true, false, Option, none, some, [], arith, ltb, if◌then◌else◌,
}
use relprim.Prelude.Int.{pos}
use relprim.Values.{text}
use relprim.Errors.{Exception, value_error, runtime_error}
use relprim.Outcome.{returned}
use relprim.Checks.{float_limit}
use relprim.SqliteEvents.Database.{
  integer, Database, Sqlite, Statement, open_connection, execute, close, begin, execute_dml, commit,
}
use relprim.SqliteEvents.Database.Rules.{idle}
use relprim.SqliteEvents.Connection.{SqliteEventStore, enable_wal, wal_loop, wal_rounds}
use relprim.SqliteEvents.Connection.Wal.{IsClock, Switched, enable_wal-Switched}
use relprim.SqliteEvents.Schema.{initialize_sync, migration_1}
use relprim.SqliteEvents.Schema.Atomic.{Initialized, initialize_sync-Initialized}

abbrev pub busy_file : Exception
busy_file = runtime_error (text "database is locked")

-- The state is a clock. Each statement takes a tick, and before tick 30000 the switch to WAL finds the
-- file locked.
abbrev pub attempt_at : Statement → ℕ → Option Exception × ℕ
attempt_at Statement.set_wal t = (if ltb t 30000 then some busy_file else none, t + 1)
attempt_at _ t = (none, t + 1)

abbrev pub sqlite : Sqlite ℕ
sqlite = record {
  attempt = attempt_at;
  switches_wal = λ t. true;
  busy = λ e. true;
  no_such_table = value_error (text "no such table");
  database_full = value_error (text "database or disk is full");
  mismatched = λ rows. returned [];
  monotonic = λ t. t;
  sleep = λ d t. t + d;
}

attempt_takes_time : (statement : Statement) (t : ℕ) → t ≤ (attempt_at statement t).1
attempt_takes_time Statement.set_wal t = omega arith
attempt_takes_time _ t = omega arith

sqlite-IsClock : IsClock sqlite
sqlite-IsClock = record { attempt_later = attempt_takes_time; sleep_later = λ d t. omega arith }

abbrev pub store : SqliteEventStore
store = record { database = "events.db"; busy_timeout_seconds = 5000000 }

abbrev new_file : Database
new_file = record { wal = false; schema = none; events = none }

-- The third attempt finds the file unlocked, and the tables are made.
made : (initialize_sync sqlite store (idle new_file 0 false 0)).1.database ≡ record {
  wal = true;
  schema = some (some (integer (pos 1)));
  events = some (record { rows = []; sequence = 0 });
}
unfolding initialize_sync float_limit open_connection execute close wal_loop begin migration_1
    execute_dml commit
made = refl

initialize_sync-Initialized_example :
    Initialized sqlite new_file 0 false (initialize_sync sqlite store (idle new_file 0 false 0))
initialize_sync-Initialized_example =
    initialize_sync-Initialized sqlite new_file 0 false sqlite-IsClock store 0

enable_wal-Switched_example :
    let w = idle {W = ℕ} new_file 1 false 7 in
    (wal_loop sqlite (wal_rounds sqlite store) 5000007 w ≡ some (enable_wal sqlite store w))
    × Switched sqlite new_file 1 false 5000007 (enable_wal sqlite store w)
enable_wal-Switched_example = enable_wal-Switched sqlite new_file 1 false sqlite-IsClock store 7
