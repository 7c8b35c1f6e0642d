-- ===== src/SqliteEvents/Store.antt =====
-- src/relprim/sqlite_events.py: emit, history and delete_before of an SQLiteEventStore.
pub mod Refines
pub mod Sequenced
pub mod Paged
mod Examples
use relprim.Prelude.{
  ℕ, suc, ◌-◌, ◌^◌, String, not, Option, none, some, List, [], ◌∷◌, ◌++◌, leb, if◌then◌else◌,
  length, keep_if,
}
use relprim.Prelude.Int.{ℤ, pos, pos_part, ltb_ℤ, leb_ℤ}
use relprim.Prelude.Text.{is_blank}
use relprim.Values.{PyObject, Datetime, text}
use relprim.Errors.{value_error, type_error}
use relprim.Outcome.{Outcome, returned, raised, bind_outcome, Action, pure, lift, ◌>>=◌}
use relprim.Checks.{check_aware, check_int}
use relprim.Events.{EventType, StructuredEvent}
use relprim.SqliteEvents.Database.{
  EventTable, Database, Statement, World, Sqlite, execute, execute_dml, close, finally,
  with_connection,
}
use relprim.SqliteEvents.Encoding.{
  StoredEvent, PayloadText, event_value, serialize_timestamp, encode_payload,
}
use relprim.SqliteEvents.Connection.{SqliteEventStore, connect}
use relprim.SqliteEvents.Schema.{ensure_initialized}
use relprim.SqliteEvents.Query.{Filter, clauses, parameters, select, stored_events}

-- A member of the tuple `event_types`.
pub data TypeObject : Type 0 where
  known_type : EventType → TypeObject
  no_event_type : TypeObject

-- The largest rowid.
abbrev pub last_rowid : ℕ
last_rowid = 2 ^ 63 - 1

check_name : Option String → Outcome (Unit {0})
check_name none = returned tt
check_name (some name) =
    if is_blank name
    then raised (value_error (text "operation_name must not be empty when provided."))
    else returned tt

check_members : List TypeObject → Outcome (List EventType)
check_members [] = returned []
check_members (known_type t ∷ rest) = bind_outcome (check_members rest) (λ ts. returned (t ∷ ts))
check_members (no_event_type ∷ rest) =
    raised (type_error (text "event_types must contain EventType values."))

check_types : Option (List TypeObject) → Outcome (Option (List EventType))
unfolding check_members
check_types none = returned none
check_types (some members) = bind_outcome (check_members members) (λ ts. returned (some ts))

check_after : Option PyObject → Outcome (Option ℕ)
check_after none = returned none
check_after (some o) = bind_outcome (check_int "after_sequence_id" o) λ n.
    if ltb_ℤ n (pos 0)
    then raised (value_error (text "after_sequence_id must be greater than or equal to 0."))
    else returned (some (pos_part n))

check_limit : PyObject → Outcome ℕ
check_limit o = bind_outcome (check_int "limit" o) λ n.
    if leb_ℤ n (pos 0)
    then raised (value_error (text "limit must be greater than 0."))
    else returned (pos_part n)

-- The arguments of `history` checked in their order; none where an empty `event_types` ends the call
-- before the rest is looked at.
unfoldable pub check_filter :
    Option String → Option (List TypeObject) → Option PyObject → PyObject → Outcome (Option Filter)
unfolding check_name check_types check_after check_limit
check_filter operation_name (some []) after_sequence_id limit =
    bind_outcome (check_name operation_name) (λ _. returned none)
check_filter operation_name event_types after_sequence_id limit =
    bind_outcome (check_name operation_name) λ _. bind_outcome (check_types event_types) λ types.
      bind_outcome (check_after after_sequence_id) λ after. bind_outcome (check_limit limit) λ n.
        returned (
          some (record {
            operation_name = operation_name;
            event_types = types;
            after_sequence_id = after;
            limit = n;
          }))

module _ {W : Type 0} (sqlite : Sqlite W) where
  -- A statement on relprim_events.
  abbrev pub on_events :
      {A : Type 0} → (EventTable → Outcome (A × EventTable)) → Database → Outcome (A × Database)
  on_events effect d = elim d.events [
    | none ↦ raised sqlite.no_such_table
    | some table ↦
        bind_outcome (effect table)
          λ result. returned (result.0, record d { events = some result.1 })
  ]

  -- INSERT INTO relprim_events: AUTOINCREMENT goes on from the largest id that there ever was.
  unfoldable pub insert_row :
      EventType → String → ℤ → PayloadText → EventTable → Outcome (Unit {0} × EventTable)
  insert_row event_type operation_name timestamp payload_json table =
      if leb last_rowid table.sequence
      then raised sqlite.database_full
      else returned (
        tt,
        record {
          rows =
              table.rows
              ++ record {
                sequence_id = suc table.sequence;
                event_type = event_value event_type;
                operation_name = operation_name;
                timestamp = timestamp;
                payload_json = payload_json;
              }
                ∷ [];
          sequence = suc table.sequence;
        },
      )

  -- From _connect on, with the values encoded.
  unfoldable pub insert_event :
      SqliteEventStore → StructuredEvent → PayloadText → ℤ → Action (World W) (Unit {0})
  unfolding insert_row
  insert_event store event payload_json timestamp = connect sqlite store >>= λ _.
      finally
        (with_connection sqlite (
          execute_dml sqlite Statement.insert_event
            (on_events (insert_row event.event_type event.operation_name timestamp payload_json))))
        close

  -- `_emit_sync`
  unfoldable pub emit_sync : SqliteEventStore → StructuredEvent → Action (World W) (Unit {0})
  unfolding insert_event
  emit_sync store event = lift (encode_payload event.payload) >>= λ payload_json.
      lift (serialize_timestamp event.timestamp) >>= insert_event store event payload_json

  -- SQLiteEventStore.emit
  unfoldable pub emit : SqliteEventStore → StructuredEvent → Action (World W) (Unit {0})
  unfolding emit_sync
  emit store event = ensure_initialized sqlite store >>= λ _. emit_sync store event

  -- `_history_sync`
  unfoldable pub history_sync : SqliteEventStore → Filter → Action (World W) (List StoredEvent)
  history_sync store f =
      (connect sqlite store >>= λ _.
      finally
        (execute sqlite Statement.select_events (
          on_events (λ table.
            bind_outcome (select sqlite.mismatched (clauses f) (parameters f) table.rows)
              (λ rows. returned (rows, table)))))
        close)
      >>= λ rows. lift (stored_events rows)

  -- What `history` does after its checks.
  abbrev pub answer : SqliteEventStore → Option Filter → Action (World W) (List StoredEvent)
  answer store none = pure []
  answer store (some f) = ensure_initialized sqlite store >>= λ _. history_sync store f

  -- SQLiteEventStore.history
  unfoldable pub history :
      SqliteEventStore
      → Option String
      → Option (List TypeObject)
      → Option PyObject
      → PyObject
      → Action (World W) (List StoredEvent)
  unfolding history_sync
  history store operation_name event_types after_sequence_id limit =
      lift (check_filter operation_name event_types after_sequence_id limit) >>= answer store

  -- DELETE FROM relprim_events WHERE timestamp < ?, with the number of rows that it deletes.
  unfoldable pub delete_rows : ℤ → EventTable → Outcome (ℕ × EventTable)
  delete_rows before table = returned (
    length (keep_if (λ row. ltb_ℤ row.timestamp before) table.rows),
    record table { rows = keep_if (λ row. not (ltb_ℤ row.timestamp before)) table.rows },
  )

  -- `_delete_before_sync`
  unfoldable pub delete_before_sync : SqliteEventStore → Datetime → Action (World W) ℕ
  unfolding delete_rows
  delete_before_sync store before = lift (serialize_timestamp before) >>= λ timestamp.
      connect sqlite store >>= λ _.
      finally
        (with_connection sqlite
          (execute_dml sqlite Statement.delete_events (on_events (delete_rows timestamp))))
        close

  -- SQLiteEventStore.delete_before
  unfoldable pub delete_before : SqliteEventStore → Datetime → Action (World W) ℕ
  unfolding delete_before_sync
  delete_before store before = lift (check_aware "before" before) >>= λ _.
      ensure_initialized sqlite store >>= λ _. delete_before_sync store before
