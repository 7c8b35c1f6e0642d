-- ===== src/SqliteEvents/Store/Refines.antt =====
-- emit, history and delete_before of the store keep and answer a list of stored events.
use relprim.Prelude.{
  ℕ, suc, ◌≡◌, refl, ap, Bool, true, false, not, Option, some, List, [], ◌∷◌, ◌++◌, arith, leb,
  ◌==◌, length, take, keep_if, all,
}
use relprim.Prelude.Int.{ℤ, ltb_ℤ}
use relprim.Prelude.Text.{is_blank}
use relprim.Values.{Datetime}
use relprim.Errors.{Exception}
use relprim.Outcome.{Interrupt, Outcome, returned, raised, interrupted, bind_outcome, lift, ◌>>=◌}
use relprim.Checks.Accepted.{AllFinite}
use relprim.Events.{StructuredEvent}
use relprim.SqliteEvents.Database.{Row, Cell, Database, EventTable, World, Sqlite, Statement}
use relprim.SqliteEvents.Database.Rules.{idle}
use relprim.SqliteEvents.Encoding.{
  StoredEvent, serialize_timestamp, sort_keys, nodes, json_object, event_value,
}
use relprim.SqliteEvents.Encoding.Roundtrip.{encode_payload_finite, sort_keys-AllFinite}
use relprim.SqliteEvents.Connection.{SqliteEventStore}
use relprim.SqliteEvents.Connection.Transacted.{
  Transacted, committed, rolled_back, abandoned, dml-Transacted, query-Transacted,
}
use relprim.SqliteEvents.Query.{passes, Filter, clauses, parameters, select, stored_events}
use relprim.SqliteEvents.Query.Bound.{fits, tests, select_lem}
use relprim.SqliteEvents.Log.{StandsFor, Stands, matches, utc}
use relprim.SqliteEvents.Log.Reading.{rows_read}
use relprim.SqliteEvents.Log.Selected.{keep-Stands, selected-Stands}
use relprim.SqliteEvents.Store.{
  last_rowid, on_events, insert_row, insert_event, emit_sync, history_sync, delete_rows,
  delete_before_sync,
}

-- A database with a table of events.
abbrev pub holding : Bool → Option (Option Cell) → EventTable → Database
holding wal schema table = record { wal = wal; schema = schema; events = some table }

-- How a call ends on a database whose table stands for a log: it returns a value and leaves a table
-- that stands for another log; or it raises and the database is as before.
pub data Ending {W : Type 0} (wal : Bool) (schema : Option (Option Cell)) (before : EventTable)
    (n : ℕ) (init : Bool) {A : Type 0} (value : A) (log : List StoredEvent)
    : Outcome A × World W → Type 0 where
  answered :
      (table : EventTable) (rest : W)
      → Stands table.rows log
      → Ending wal schema before n init value log
          (returned value, idle (holding wal schema table) n init rest)
  failed :
      (e : Exception) (rest : W)
      → Ending wal schema before n init value log
          (raised e, idle (holding wal schema before) n init rest)
  left :
      (i : Interrupt) (rest : W)
      → Ending wal schema before n init value log
          (interrupted i, idle (holding wal schema before) n init rest)

append-Stands :
    (rows : List Row) (log : List StoredEvent) (row : Row) (stored : StoredEvent)
    → Stands rows log
    → StandsFor row stored
    → Stands (rows ++ row ∷ []) (log ++ stored ∷ [])
append-Stands [] [] row stored h r = (r, tt)
append-Stands (first ∷ rows) (e ∷ log) row stored h r =
    (h.0, append-Stands rows log row stored h.1 r)
append-Stands [] (_ ∷ _) row stored h r = absurd h
append-Stands (_ ∷ _) [] row stored h r = absurd h

Stands-length :
    (rows : List Row) (log : List StoredEvent) → Stands rows log → length rows ≡ length log
Stands-length [] [] h = refl
Stands-length (row ∷ rows) (e ∷ log) h = rw (Stands-length rows log h.1) refl
Stands-length [] (_ ∷ _) h = absurd h
Stands-length (_ ∷ _) [] h = absurd h

nonzero : (n : ℕ) → (suc n == 0) ≡ false
nonzero n = ground arith

same_instant :
    (t : ℤ) (row : Row) (stored : StoredEvent)
    → StandsFor row stored
    → ltb_ℤ row.timestamp t ≡ ltb_ℤ stored.event.timestamp.wall t
same_instant t row stored h = ap (λ (time : Datetime). ltb_ℤ time.wall t) h.same_time

-- What is stored of an event: the instant in UTC, and the payload with its keys sorted.
abbrev pub stored_form : ℕ → ℤ → StructuredEvent → StoredEvent
stored_form id t event = record {
  sequence_id = id;
  event = record event { timestamp = utc t; payload = sort_keys event.payload };
}

abbrev pub is_before : ℤ → StoredEvent → Bool
is_before t stored = ltb_ℤ stored.event.timestamp.wall t

module _ {W : Type 0} (sqlite : Sqlite W) (wal : Bool) (schema : Option (Option Cell))
    (table : EventTable) (n : ℕ) (init : Bool) (log : List StoredEvent) where
  ended :
      {A : Type 0} (value : A) (after : EventTable) (log' : List StoredEvent)
      {r : Outcome A × World W}
      → Stands after.rows log'
      → Transacted sqlite
          (holding wal schema table)
          n
          init
          (λ a d. (a ≡ value) × (d ≡ holding wal schema after))
          r
      → Ending wal schema table n init value log' r
  ended value after log' h (committed a d rest' q) = rw (q.0, q.1) (answered after rest' h)
  ended value after log' h (rolled_back e rest') = failed e rest'
  ended value after log' h (abandoned i rest') = left i rest'

  read_answer :
      (stands : Stands table.rows log) (rows : List Row) (events : List StoredEvent)
      {r : Outcome (List Row) × World W} (w : World W)
      → stored_events rows ≡ returned events
      → Transacted sqlite
          (holding wal schema table)
          n
          init
          (λ a d. (a ≡ rows) × (d ≡ holding wal schema table))
          r
      → Ending wal schema table n init events log
          (((λ _. r) >>= λ found. lift (stored_events found)) w)
  read_answer stands rows events w h (committed a d rest' q) =
      rw (q.0, q.1, h) (answered table rest' stands)
  read_answer stands rows events w h (rolled_back e rest') = failed e rest'
  read_answer stands rows events w h (abandoned i rest') = left i rest'

module _ {W : Type 0} (sqlite : Sqlite W) (store : SqliteEventStore) (wal : Bool)
    (schema : Option (Option Cell)) (table : EventTable) (n : ℕ) (init : Bool)
    (log : List StoredEvent) (stands : Stands table.rows log) (rest : W) where
  -- A history is, at its limit, the events of the log that the filter asks for, in their order; or it
  -- raises. Either way the database stays as it is, and the connection is closed.
  pub history_sync-Ending :
      (f : Filter)
      → fits f.after_sequence_id ≡ true
      → fits (some f.limit) ≡ true
      → Ending wal schema table n init
          (take f.limit (keep_if (matches f) log))
          log
          (history_sync sqlite store f (idle (holding wal schema table) n init rest))
  unfolding history_sync
  history_sync-Ending f ha hl =
      let rows = take f.limit (keep_if (λ row. all (λ t. passes t row) (tests f)) table.rows) in
      read_answer sqlite wal schema table n init log stands rows
        (take f.limit (keep_if (matches f) log)) (idle (holding wal schema table) n init rest)
        (rows_read rows _ (selected-Stands f table.rows log stands))
        (query-Transacted sqlite (holding wal schema table) n init _ store Statement.select_events
          (on_events sqlite (λ t.
            bind_outcome (select sqlite.mismatched (clauses f) (parameters f) t.rows)
              (λ found. returned (found, t))))
          rows rest (rw (select_lem sqlite.mismatched f table.rows ha hl) refl) (refl, refl))

  -- An event that the constructor of StructuredEvent accepts is added to the log at the end, under
  -- the next id, its timestamp in UTC and its payload with the keys sorted; or emit raises and the
  -- database is as before. It asks for a timestamp inside the calendar and a free id.
  pub emit_sync-Ending :
      (event : StructuredEvent) (t : ℤ)
      → is_blank event.operation_name ≡ false
      → AllFinite event.payload
      → serialize_timestamp event.timestamp ≡ returned t
      → leb last_rowid table.sequence ≡ false
      → Ending wal schema table n init tt
          (log ++ stored_form (suc table.sequence) t event ∷ [])
          (emit_sync sqlite store event (idle (holding wal schema table) n init rest))
  unfolding emit_sync insert_event insert_row
  emit_sync-Ending event t named finite_floats ht free =
      let payload = json_object (nodes (sort_keys event.payload)) in
      let row : Row = record {
        sequence_id = suc table.sequence;
        event_type = event_value event.event_type;
        operation_name = event.operation_name;
        timestamp = t;
        payload_json = payload;
      } in
      rw (encode_payload_finite event.payload finite_floats, ht)
        (ended sqlite wal schema table n init log tt
          (record { rows = table.rows ++ row ∷ []; sequence = suc table.sequence })
          (log ++ stored_form (suc table.sequence) t event ∷ [])
          (append-Stands table.rows log row (stored_form (suc table.sequence) t event) stands
            (record {
              same_id = refl;
              same_type = refl;
              same_name = refl;
              same_time = refl;
              same_payload = refl;
              positive = nonzero table.sequence;
              named = named;
              finite_floats = sort_keys-AllFinite event.payload finite_floats;
            }))
          (dml-Transacted sqlite (holding wal schema table) n init _ store Statement.insert_event
            (on_events sqlite (insert_row sqlite event.event_type event.operation_name t payload))
            rest (rw free (refl, refl))))

  -- delete_before deletes exactly the events of the log before the given instant, and returns their
  -- number; or it raises and the database is as before.
  pub delete_before_sync-Ending :
      (before : Datetime) (t : ℤ)
      → serialize_timestamp before ≡ returned t
      → Ending wal schema table n init
          (length (keep_if (is_before t) log))
          (keep_if (λ stored. not (is_before t stored)) log)
          (delete_before_sync sqlite store before (idle (holding wal schema table) n init rest))
  unfolding delete_before_sync delete_rows
  delete_before_sync-Ending before t ht = rw ht (
      ended sqlite wal schema table n init log (length (keep_if (is_before t) log))
        (record table { rows = keep_if (λ row. not (ltb_ℤ row.timestamp t)) table.rows })
        (keep_if (λ stored. not (is_before t stored)) log)
        (keep-Stands _ _ table.rows log (λ row stored h. ap not (same_instant t row stored h))
          stands)
        (dml-Transacted sqlite (holding wal schema table) n init _ store Statement.delete_events
          (on_events sqlite (delete_rows sqlite t)) rest
          (Stands-length _ _ (keep-Stands _ _ table.rows log (same_instant t) stands), refl)))
