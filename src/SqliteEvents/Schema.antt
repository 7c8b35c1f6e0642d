-- ===== src/SqliteEvents/Schema.antt =====
-- src/relprim/sqlite_events.py: the versions of the schema, and the initialization of the store.
pub mod Upgrade
pub mod Atomic
pub mod Examples
use relprim.Prelude.{ℕ, zero, suc, ◌-◌, true, Option, none, some, [], ◌∷◌, ltb, ◌==◌, if◌then◌else◌}
use relprim.Prelude.Int.{pos}
use relprim.Values.{lit, number, text}
use relprim.Errors.{sqlite_schema_error}
use relprim.Outcome.{Outcome, returned, raised, Action, pure, raise, lift, ◌>>=◌}
use relprim.SqliteEvents.Database.{
  EventTable, Cell, integer, Database, Statement, World, Sqlite, execute, execute_dml, begin,
  commit, rollback, close, on_exception, finally,
}
use relprim.SqliteEvents.Connection.{SqliteEventStore, connect, enable_wal}

abbrev pub schema_version : ℕ
schema_version = 1

abbrev pub row_or_none : Option (Option Cell) → Option Cell
row_or_none none = none
row_or_none (some row) = row

-- CREATE TABLE IF NOT EXISTS relprim_schema
abbrev pub create_schema_table : Database → Database
create_schema_table d = record d { schema = some (row_or_none d.schema) }

abbrev pub table_or_empty : Option EventTable → EventTable
table_or_empty none = record { rows = []; sequence = 0 }
table_or_empty (some table) = table

-- CREATE TABLE IF NOT EXISTS relprim_events
abbrev pub create_events_table : Database → Database
create_events_table d = record d { events = some (table_or_empty d.events) }

module _ {W : Type 0} (sqlite : Sqlite W) where
  -- A statement that needs the table of the schema.
  abbrev pub on_schema :
      {A : Type 0} → (Option Cell → Outcome (A × Database)) → Database → Outcome (A × Database)
  on_schema effect d = elim d.schema [ none ↦ raised sqlite.no_such_table | some row ↦ effect row ]

  version_of : Option Cell → Outcome ℕ
  version_of none = returned 0
  version_of (some (integer (pos n))) = returned n
  version_of (some _) =
      raised (sqlite_schema_error (text "SQLite event-store schema version is invalid."))

  -- `_read_schema_version`
  unfoldable pub read_schema_version : Action (World W) ℕ
  unfolding version_of
  read_schema_version =
      execute sqlite Statement.select_version (λ d. on_schema (λ row. returned (row, d)) d)
      >>= λ row. lift (version_of row)

  -- CREATE INDEX IF NOT EXISTS: an index changes no answer.
  create_index : Action (World W) (Unit {0})
  create_index =
      execute sqlite Statement.create_index
        λ d. elim d.events [ none ↦ raised sqlite.no_such_table | some table ↦ returned (tt, d) ]

  -- `_migration_1`
  unfoldable pub migration_1 : Action (World W) (Unit {0})
  unfolding create_index
  migration_1 =
      execute sqlite Statement.create_events (λ d. returned (tt, create_events_table d)) >>= λ _.
      create_index >>= λ _. create_index >>= λ _. create_index

  -- _MIGRATIONS
  unfoldable pub migrations : ℕ → Option (Action (World W) (Unit {0}))
  migrations version = if version == 1 then some migration_1 else none

  -- INSERT OR REPLACE INTO relprim_schema
  unfoldable pub record_version : ℕ → Action (World W) (Unit {0})
  record_version version = execute_dml sqlite Statement.replace_version λ d.
      on_schema (λ row. returned (tt, record d { schema = some (some (integer (pos version))) })) d

  -- One round of the loop over the target versions.
  unfoldable pub migrate_to : ℕ → Action (World W) (Unit {0})
  unfolding migrations record_version
  migrate_to target = elim (migrations target) [
    | none ↦ raise (
        sqlite_schema_error (
          lit "No SQLite event-store migration exists for schema version "
          ∷ number target
          ∷ lit "."
          ∷ []))
    | some migration ↦ migration >>= λ _. record_version target
  ]

  -- The loop itself, by the number of versions that are left.
  unfoldable pub migrate : ℕ → ℕ → Action (World W) (Unit {0})
  unfolding migrate_to
  migrate zero target = pure tt
  migrate (suc left) target = migrate_to target >>= λ _. migrate left (suc target)

  -- From the version that is read on.
  unfoldable pub upgrade : ℕ → Action (World W) (Unit {0})
  unfolding migrate
  upgrade current =
      if ltb schema_version current
      then raise (
          sqlite_schema_error (
            lit "SQLite event-store schema version "
            ∷ number current
            ∷ lit " is newer than the supported version "
            ∷ number schema_version
            ∷ lit "."
            ∷ []))
      else migrate (schema_version - current) (suc current) >>= λ _. commit sqlite

  create_version_table : Action (World W) (Unit {0})
  create_version_table =
      execute sqlite Statement.create_schema (λ d. returned (tt, create_schema_table d))

  -- From CREATE TABLE on, inside the transaction.
  unfoldable pub in_transaction : Action (World W) (Unit {0})
  unfolding create_version_table read_schema_version upgrade
  in_transaction = create_version_table >>= λ _. read_schema_version >>= upgrade

  -- `_initialize_sync`
  unfoldable pub initialize_sync : SqliteEventStore → Action (World W) (Unit {0})
  unfolding connect enable_wal in_transaction
  initialize_sync store = connect sqlite store >>= λ _.
      finally
        (on_exception (enable_wal sqlite store >>= λ _. begin sqlite >>= λ _. in_transaction)
          rollback)
        close

  -- `_ensure_initialized` of a task that has the lock.
  unfoldable pub ensure_initialized : SqliteEventStore → Action (World W) (Unit {0})
  unfolding initialize_sync
  ensure_initialized store w =
      if w.initialized
      then (returned tt, w)
      else (initialize_sync store >>= λ _ w'. (returned tt, record w' { initialized = true })) w
