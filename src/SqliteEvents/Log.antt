-- ===== src/SqliteEvents/Log.antt =====
-- The abstract view of an SQLiteEventStore: a list of stored events. A table stands for such a
-- list, and the queries of src/relprim/sqlite_events.py have their meaning there.
pub mod Reading
pub mod Selected
pub mod Paged
use relprim.Prelude.{
  ℕ, String, ◌≡◌, Bool, true, false, ◌&&◌, Option, none, some, List, [], ◌∷◌, ltb, ◌==◌, any,
}
use relprim.Prelude.Int.{ℤ, pos}
use relprim.Prelude.Text.{is_blank}
use relprim.Values.{offset, Datetime}
use package.text.Mathlib.Text.{◌==◌ as str_eq}
use relprim.Checks.Accepted.{AllFinite}
use relprim.Events.{EventType}
use relprim.SqliteEvents.Database.{Row}
use relprim.SqliteEvents.Encoding.{StoredEvent, event_value, nodes, json_object}
use relprim.SqliteEvents.Query.{Filter}

-- An instant as a datetime in UTC.
abbrev pub utc : ℤ → Datetime
utc t = record { wall = t; tzinfo = offset (pos 0) }

-- A row that stands for a stored event, which the constructors of events accept.
pub record StandsFor (row : Row) (stored : StoredEvent) : Type 0 where
  pub same_id : row.sequence_id ≡ stored.sequence_id
  pub same_type : row.event_type ≡ event_value stored.event.event_type
  pub same_name : row.operation_name ≡ stored.event.operation_name
  pub same_time : utc row.timestamp ≡ stored.event.timestamp
  pub same_payload : row.payload_json ≡ json_object (nodes stored.event.payload)
  pub positive : (stored.sequence_id == 0) ≡ false
  pub named : is_blank stored.event.operation_name ≡ false
  pub finite_floats : AllFinite stored.event.payload

-- Row by row.
abbrev pub Stands : List Row → List StoredEvent → Type 0
Stands [] [] = Unit {0}
Stands (row ∷ rows) (stored ∷ log) = StandsFor row stored × Stands rows log
Stands _ _ = ⊥

-- The events that a history asks for.
abbrev pub name_matches : Option String → StoredEvent → Bool
name_matches none stored = true
name_matches (some name) stored = str_eq stored.event.operation_name name

abbrev pub type_matches : Option (List EventType) → StoredEvent → Bool
type_matches none stored = true
type_matches (some types) stored =
    any (λ t. str_eq (event_value stored.event.event_type) (event_value t)) types

abbrev pub is_after : Option ℕ → StoredEvent → Bool
is_after none stored = true
is_after (some n) stored = ltb n stored.sequence_id

abbrev pub matches : Filter → StoredEvent → Bool
matches f stored =
    name_matches f.operation_name stored
    && type_matches f.event_types stored
    && is_after f.after_sequence_id stored
