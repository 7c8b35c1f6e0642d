-- ===== src/SqliteEvents/Log/Reading.antt =====
-- Rows that stand for stored events are read back as those.
use relprim.Prelude.{◌≡◌, refl, ap, List, [], ◌∷◌}
use relprim.Outcome.{returned}
use relprim.Checks.{check_aware, unchecked}
use relprim.Checks.Accepted.{freeze_json_scalars_exact}
use relprim.Events.{new_event}
use relprim.SqliteEvents.Database.{Row}
use relprim.SqliteEvents.Encoding.{StoredEvent, new_stored_event}
use relprim.SqliteEvents.Encoding.Roundtrip.{event_type_from-event_value, decode_nodes}
use relprim.SqliteEvents.Query.{stored_event_from_row, stored_events}
use relprim.SqliteEvents.Log.{StandsFor, Stands}

row_reads :
    (row : Row) (stored : StoredEvent)
    → StandsFor row stored
    → stored_event_from_row row ≡ returned stored
unfolding stored_event_from_row new_event check_aware new_stored_event
row_reads row stored h =
    rw
      (
        h.same_type,
        event_type_from-event_value stored.event.event_type,
        h.same_payload,
        decode_nodes stored.event.payload h.finite_floats,
        h.same_name,
        h.named,
        (freeze_json_scalars_exact "payload" (unchecked stored.event.payload)
              stored.event.payload).1
            (refl, h.finite_floats),
        h.same_id,
        h.positive,
      )
      (ap
        (λ t. returned (record {
          sequence_id = stored.sequence_id;
          event = record stored.event { timestamp = t };
        }))
        h.same_time)

pub rows_read :
    (rows : List Row) (log : List StoredEvent) → Stands rows log → stored_events rows ≡ returned log
unfolding stored_events
rows_read [] [] h = refl
rows_read (row ∷ rows) (stored ∷ log) h = rw (row_reads row stored h.0, rows_read rows log h.1) refl
rows_read [] (_ ∷ _) h = absurd h
rows_read (_ ∷ _) [] h = absurd h
