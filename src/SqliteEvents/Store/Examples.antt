-- ===== src/SqliteEvents/Store/Examples.antt =====
-- Runs of an event store.
use relprim.Prelude.{ℕ, ◌≡◌, refl, true, false, Option, none, some, List, [], ◌∷◌, arith, ◌==◌}
use relprim.Prelude.Int.{ℤ, pos, ◌-ℤ◌}
use relprim.Prelude.Text.{is_blank}
use relprim.Values.{finite, int, float, offset}
use relprim.Outcome.{returned}
use relprim.Events.{EventType, StructuredEvent}
use relprim.SqliteEvents.Database.{Cell, integer, EventTable, Row}
use relprim.SqliteEvents.Database.Rules.{idle}
use relprim.SqliteEvents.Encoding.{StoredEvent, sort_keys, serialize_timestamp, json_object, node}
use relprim.SqliteEvents.Schema.Examples.{sqlite, store}
use relprim.SqliteEvents.Query.{Filter}
use relprim.SqliteEvents.Log.{StandsFor, Stands, utc}
use relprim.SqliteEvents.Store.{emit_sync, history_sync, delete_before_sync}
use relprim.SqliteEvents.Store.Refines.{
  Ending, holding, stored_form, history_sync-Ending, emit_sync-Ending, delete_before_sync-Ending,
}
use relprim.SqliteEvents.Store.Sequenced.{IsSequenced}
use relprim.SqliteEvents.Store.Paged.{next, next_page-Ending}

abbrev retry : StructuredEvent
retry = record {
  event_type = EventType.retry_scheduled;
  operation_name = "load";
  timestamp = record { wall = pos 7200000005; tzinfo = offset (pos 7200000000) };
  payload = ("delay", float (finite (pos 100000))) ∷ ("attempt", int (pos 2)) ∷ [];
}

sorted :
    sort_keys retry.payload ≡ ("attempt", int (pos 2)) ∷ ("delay", float (finite (pos 100000))) ∷ []
unfolding sort_keys
sorted = refl

abbrev no_rows : EventTable
no_rows = record { rows = []; sequence = 4 }

abbrev version_1 : Option (Option Cell)
version_1 = some (some (integer (pos 1)))

retry_time : serialize_timestamp retry.timestamp ≡ returned (pos 5)
unfolding serialize_timestamp ◌-ℤ◌
retry_time = refl

name_given : is_blank retry.operation_name ≡ false
unfolding is_blank
name_given = refl

emit_sync-Ending_example :
    Ending true version_1 no_rows 0 true tt
      (stored_form 5 (pos 5) retry ∷ [])
      (emit_sync sqlite store retry (idle (holding true version_1 no_rows) 0 true 0))
emit_sync-Ending_example =
    emit_sync-Ending sqlite store true version_1 no_rows 0 true [] tt 0 retry (pos 5) name_given
      (tt, (tt, tt)) retry_time refl

abbrev row : ℕ → ℤ → Row
row id t = record {
  sequence_id = id;
  event_type = "retry.scheduled";
  operation_name = "load";
  timestamp = t;
  payload_json = json_object (("attempt", node (int (pos 2))) ∷ []);
}

abbrev event_at : ℕ → ℤ → StoredEvent
event_at id t = record {
  sequence_id = id;
  event = record retry { timestamp = utc t; payload = ("attempt", int (pos 2)) ∷ [] };
}

row-StandsFor : (id : ℕ) (t : ℤ) → (id == 0) ≡ false → StandsFor (row id t) (event_at id t)
row-StandsFor id t h = record {
  same_id = refl;
  same_type = refl;
  same_name = refl;
  same_time = refl;
  same_payload = refl;
  positive = h;
  named = name_given;
  finite_floats = (tt, tt);
}

abbrev two_rows : EventTable
two_rows = record { rows = row 3 (pos 5) ∷ row 9 (pos 8) ∷ []; sequence = 9 }

abbrev two_events : List StoredEvent
two_events = event_at 3 (pos 5) ∷ event_at 9 (pos 8) ∷ []

two-Stands : Stands two_rows.rows two_events
two-Stands = (row-StandsFor 3 (pos 5) refl, (row-StandsFor 9 (pos 8) refl, tt))

abbrev retries_after_4 : Filter
retries_after_4 = record {
  operation_name = some "load";
  event_types = some (EventType.attempt_failed ∷ EventType.retry_scheduled ∷ []);
  after_sequence_id = some 4;
  limit = 10;
}

history_sync-Ending_example :
    Ending true version_1 two_rows 0 true
      (event_at 9 (pos 8) ∷ [])
      two_events
      (history_sync sqlite store retries_after_4 (idle (holding true version_1 two_rows) 0 true 0))
history_sync-Ending_example =
    history_sync-Ending sqlite store true version_1 two_rows 0 true two_events two-Stands 0
      retries_after_4 refl refl

eight : serialize_timestamp (utc (pos 8)) ≡ returned (pos 8)
unfolding serialize_timestamp ◌-ℤ◌
eight = refl

delete_before_sync-Ending_example :
    Ending true version_1 two_rows 0 true 1 (event_at 9 (pos 8) ∷ []) (
      delete_before_sync sqlite store
        (utc (pos 8))
        (idle (holding true version_1 two_rows) 0 true 0))
delete_before_sync-Ending_example =
    delete_before_sync-Ending sqlite store true version_1 two_rows 0 true two_events two-Stands 0
      (utc (pos 8)) (pos 8) eight

two-IsSequenced : IsSequenced two_rows
two-IsSequenced = ((omega arith, (omega arith, tt)), ((omega arith, tt), (tt, tt)))

-- One event to a page.
abbrev first_page : Filter
first_page = record {
  operation_name = none;
  event_types = none;
  after_sequence_id = none;
  limit = 1;
}

next_page-Ending_example :
    Ending true version_1 two_rows 0 true (event_at 9 (pos 8) ∷ []) two_events (
      history_sync sqlite store
        (next first_page (event_at 3 (pos 5)) 5)
        (idle (holding true version_1 two_rows) 0 true 0))
next_page-Ending_example =
    next_page-Ending sqlite store true version_1 two_rows 0 true two_events two-Stands 0 first_page
      (event_at 3 (pos 5)) 5 two-IsSequenced refl refl refl
