-- ===== src/SqliteEvents/Query.antt =====
-- src/relprim/sqlite_events.py: the query of `_history_sync` as clauses and positional parameters, what
-- SQLite makes of them, and the rows read back as events.
pub mod Bound
use relprim.Prelude.{
  ℕ, zero, suc, ◌^◌, String, Bool, false, Option, none, some, List, [], ◌∷◌, ◌++◌, map, ltb, leb,
  if◌then◌else◌, length, take, keep_if, any, all,
}
use relprim.Prelude.Int.{pos}
use relprim.Values.{offset, text}
use relprim.Errors.{overflow_error}
use relprim.Outcome.{Outcome, returned, raised, bind_outcome}
use relprim.Checks.{unchecked}
use package.text.Mathlib.Text.{◌==◌ as str_eq}
use relprim.Events.{EventType, new_event}
use relprim.SqliteEvents.Database.{Row}
use relprim.SqliteEvents.Encoding.{
  StoredEvent, event_value, event_type_from, decode_payload, new_stored_event,
}

-- The arguments of `_history_sync`.
pub record Filter : Type 0 where
  pub operation_name : Option String
  pub event_types : Option (List EventType)
  pub after_sequence_id : Option ℕ
  pub limit : ℕ

-- "operation_name = ?", "event_type IN (?, ..., ?)" with a number of places, "sequence_id > ?".
pub data Clause : Type 0 where
  operation_name_is : Clause
  event_type_in : ℕ → Clause
  sequence_id_above : Clause

-- SQLiteParameter = str | int
pub data Parameter : Type 0 where
  text_value : String → Parameter
  int_value : ℕ → Parameter

name_clause : Option String → List Clause × List Parameter
name_clause none = ([], [])
name_clause (some name) = (operation_name_is ∷ [], text_value name ∷ [])

types_clause : Option (List EventType) → List Clause × List Parameter
types_clause none = ([], [])
types_clause (some types) =
    (event_type_in (length types) ∷ [], map (λ t. text_value (event_value t)) types)

after_clause : Option ℕ → List Clause × List Parameter
after_clause none = ([], [])
after_clause (some n) = (sequence_id_above ∷ [], int_value n ∷ [])

-- `clauses`
unfoldable pub clauses : Filter → List Clause
unfolding name_clause types_clause after_clause
clauses f =
    (name_clause f.operation_name).0
    ++ (types_clause f.event_types).0
    ++ (after_clause f.after_sequence_id).0

-- `parameters`, the limit at the end.
unfoldable pub parameters : Filter → List Parameter
unfolding name_clause types_clause after_clause
parameters f =
    (name_clause f.operation_name).1
    ++ ((types_clause f.event_types).1
        ++ ((after_clause f.after_sequence_id).1 ++ int_value f.limit ∷ []))

-- A clause with its places filled.
pub data Test : Type 0 where
  name_is : String → Test
  type_in : List String → Test
  above : ℕ → Test

-- n texts, and the parameters after them.
take_texts : ℕ → List Parameter → Option (List String × List Parameter)
take_texts zero ps = some ([], ps)
take_texts (suc n) (text_value s ∷ ps) = elim (take_texts n ps) [
  | none ↦ none
  | some (ss, rest) ↦ some (s ∷ ss, rest)
]
take_texts (suc n) _ = none

abbrev pub with_test : Test → Option (List Test × ℕ) → Option (List Test × ℕ)
with_test t none = none
with_test t (some (ts, limit)) = some (t ∷ ts, limit)

-- The places are filled from left to right; that of LIMIT comes last. None where the
-- number of the parameters, or the type of one, does not fit.
unfoldable pub bind_parameters : List Clause → List Parameter → Option (List Test × ℕ)
unfolding take_texts
bind_parameters [] (int_value limit ∷ []) = some ([], limit)
bind_parameters [] _ = none
bind_parameters (operation_name_is ∷ cs) (text_value s ∷ ps) =
    with_test (name_is s) (bind_parameters cs ps)
bind_parameters (operation_name_is ∷ cs) _ = none
bind_parameters (event_type_in n ∷ cs) ps = elim (take_texts n ps) [
  | none ↦ none
  | some (ss, rest) ↦ with_test (type_in ss) (bind_parameters cs rest)
]
bind_parameters (sequence_id_above ∷ cs) (int_value n ∷ ps) =
    with_test (above n) (bind_parameters cs ps)
bind_parameters (sequence_id_above ∷ cs) _ = none

abbrev pub passes : Test → Row → Bool
passes (name_is s) row = str_eq row.operation_name s
passes (type_in ss) row = any (λ s. str_eq row.event_type s) ss
passes (above n) row = ltb n row.sequence_id

-- An INTEGER has 64 bits, with a sign.
abbrev pub too_large : Parameter → Bool
too_large (text_value s) = false
too_large (int_value n) = leb (2 ^ 63) n

-- What the rows are for a statement that is bound; for parameters that do not fit, what SQLite makes of
-- them.
abbrev pub bound_rows :
    (List Row → Outcome (List Row)) → List Row → Option (List Test × ℕ) → Outcome (List Row)
bound_rows mismatched rows none = mismatched rows
bound_rows mismatched rows (some (tests, limit)) =
    returned (take limit (keep_if (λ row. all (λ t. passes t row) tests) rows))

-- The answer of SELECT ... WHERE ... ORDER BY sequence_id ASC LIMIT ?
unfoldable pub select :
    (List Row → Outcome (List Row)) → List Clause → List Parameter → List Row → Outcome (List Row)
unfolding bind_parameters
select mismatched cs ps rows =
    if any too_large ps
    then raised (overflow_error (text "Python int too large to convert to SQLite INTEGER"))
    else bound_rows mismatched rows (bind_parameters cs ps)

-- `_stored_event_from_row`
unfoldable pub stored_event_from_row : Row → Outcome StoredEvent
stored_event_from_row row = bind_outcome (event_type_from row.event_type) λ event_type.
    bind_outcome (decode_payload row.payload_json) λ payload.
      bind_outcome
        (new_event event_type row.operation_name
          (record { wall = row.timestamp; tzinfo = offset (pos 0) }) (unchecked payload))
        λ event. new_stored_event row.sequence_id event

-- tuple(_stored_event_from_row(row) for row in rows)
unfoldable pub stored_events : List Row → Outcome (List StoredEvent)
unfolding stored_event_from_row
stored_events [] = returned []
stored_events (row ∷ rows) =
    bind_outcome (stored_event_from_row row)
      λ event. bind_outcome (stored_events rows) λ events. returned (event ∷ events)
