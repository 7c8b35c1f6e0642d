-- ===== src/SqliteEvents/Encoding.antt =====
-- src/relprim/sqlite_events.py: how an event is written to a row and read back. A text of JSON
-- stands as what json.loads makes of it.
pub mod Roundtrip
use relprim.Prelude.{
  ℕ, String, Bool, true, false, ◌&&◌, ◌||◌, List, [], ◌∷◌, ltb, ◌==◌, if◌then◌else◌, all,
}
use relprim.Prelude.Int.{ℤ, pos, negsuc, ◌-ℤ◌, ltb_ℤ, leb_ℤ}
use relprim.Prelude.Text.{codes}
use relprim.Values.{
  finite, JsonScalar, float, Metadata, no_tzinfo, no_offset, offset, Datetime, lit, text,
}
use relprim.Errors.{value_error, overflow_error}
use relprim.Outcome.{Outcome, returned, raised, bind_outcome}
use relprim.Events.{EventType, StructuredEvent}
use package.text.Mathlib.Text.{◌==◌ as str_eq}

-- A value that json.loads returns inside an object.
pub data JsonNode : Type 0 where
  node : JsonScalar → JsonNode
  nested : JsonNode

-- A text: that of a JSON object, of another JSON value, or of none, on which json.loads raises.
pub data PayloadText : Type 0 where
  json_object : List (String × JsonNode) → PayloadText
  json_other : PayloadText
  no_json : PayloadText

-- EventType.value
abbrev pub event_value : EventType → String
event_value EventType.attempt_started = "attempt.started"
event_value EventType.attempt_succeeded = "attempt.succeeded"
event_value EventType.attempt_failed = "attempt.failed"
event_value EventType.circuit_breaker_rejected = "circuit_breaker.rejected"
event_value EventType.fallback_started = "fallback.started"
event_value EventType.fallback_succeeded = "fallback.succeeded"
event_value EventType.fallback_failed = "fallback.failed"
event_value EventType.operation_started = "operation.started"
event_value EventType.operation_succeeded = "operation.succeeded"
event_value EventType.operation_failed = "operation.failed"
event_value EventType.rate_limit_detected = "rate_limit.detected"
event_value EventType.rate_limit_wait_exceeded = "rate_limit.wait_exceeded"
event_value EventType.retry_scheduled = "retry.scheduled"
event_value EventType.validation_succeeded = "validation.succeeded"
event_value EventType.validation_failed = "validation.failed"

abbrev pub event_types : List EventType
event_types =
    EventType.attempt_started ∷ EventType.attempt_succeeded ∷ EventType.attempt_failed
    ∷ EventType.circuit_breaker_rejected ∷ EventType.fallback_started ∷ EventType.fallback_succeeded
    ∷ EventType.fallback_failed ∷ EventType.operation_started ∷ EventType.operation_succeeded
    ∷ EventType.operation_failed ∷ EventType.rate_limit_detected
    ∷ EventType.rate_limit_wait_exceeded ∷ EventType.retry_scheduled
    ∷ EventType.validation_succeeded ∷ EventType.validation_failed ∷ []

find_value : String → List EventType → Outcome EventType
find_value s [] = raised (value_error (lit "'" ∷ lit s ∷ lit "' is not a valid EventType" ∷ []))
find_value s (t ∷ ts) = if str_eq (event_value t) s then returned t else find_value s ts

-- EventType(s)
unfoldable pub event_type_from : String → Outcome EventType
unfolding find_value
event_type_from s = find_value s event_types

-- The instants of the years 1 to 9999, in microseconds from the epoch.
abbrev pub in_calendar : ℤ → Bool
in_calendar t = leb_ℤ (negsuc 62135596799999999) t && ltb_ℤ t (pos 253402300800000000)

-- `_serialize_timestamp`: astimezone(UTC) overflows where the year leaves the calendar.
unfoldable pub serialize_timestamp : Datetime → Outcome ℤ
serialize_timestamp t = elim t.tzinfo [
  | offset d ↦
      if in_calendar (t.wall -ℤ d)
      then returned (t.wall -ℤ d)
      else raised (overflow_error (text "date value out of range"))
  | no_tzinfo ↦ raised (value_error (text "timestamp must be timezone-aware."))
  | no_offset ↦ raised (value_error (text "timestamp must be timezone-aware."))
]

-- The order of texts by their code points.
text_le : List ℕ → List ℕ → Bool
text_le [] ys = true
text_le (x ∷ xs) [] = false
text_le (x ∷ xs) (y ∷ ys) = ltb x y || (x == y && text_le xs ys)

insert_sorted : String × JsonScalar → Metadata → Metadata
insert_sorted e [] = e ∷ []
insert_sorted e (f ∷ rest) =
    if text_le (codes e.0) (codes f.0) then e ∷ f ∷ rest else f ∷ insert_sorted e rest

-- `sort_keys=True`
unfoldable pub sort_keys : Metadata → Metadata
unfolding insert_sorted text_le
sort_keys [] = []
sort_keys (e ∷ rest) = insert_sorted e (sort_keys rest)

abbrev pub is_finite : JsonScalar → Bool
is_finite (float (finite x)) = true
is_finite (float _) = false
is_finite _ = true

-- The items of the object that json.dumps spells.
abbrev pub nodes : Metadata → List (String × JsonNode)
nodes [] = []
nodes ((key, value) ∷ rest) = (key, node value) ∷ nodes rest

-- `_encode_payload`
unfoldable pub encode_payload : Metadata → Outcome PayloadText
unfolding sort_keys
encode_payload payload =
    if all (λ e. is_finite e.1) payload
    then returned (json_object (nodes (sort_keys payload)))
    else raised
        (value_error (text "event payload must contain JSON-compatible finite scalar values."))

-- One round of the loop of `_decode_payload`.
decode_value : JsonNode → Outcome JsonScalar
decode_value (node (float (finite x))) = returned (float (finite x))
decode_value (node (float _)) =
    raised (value_error (text "stored event payload floats must be finite."))
decode_value (node value) = returned value
decode_value nested =
    raised (value_error (text "stored event payload values must be JSON scalar values."))

decode_items : List (String × JsonNode) → Outcome Metadata
unfolding decode_value
decode_items [] = returned []
decode_items ((key, value) ∷ rest) =
    bind_outcome (decode_value value)
      λ scalar. bind_outcome (decode_items rest) λ payload. returned ((key, scalar) ∷ payload)

-- `_decode_payload`
unfoldable pub decode_payload : PayloadText → Outcome Metadata
unfolding decode_items
decode_payload (json_object items) = decode_items items
decode_payload json_other =
    raised (value_error (text "stored event payload must be a JSON object."))
decode_payload no_json = raised (value_error (text "Expecting value"))

pub record StoredEvent : Type 0 where
  pub sequence_id : ℕ
  pub event : StructuredEvent

-- `StoredEvent(...)` with `__post_init__`.
unfoldable pub new_stored_event : ℕ → StructuredEvent → Outcome StoredEvent
new_stored_event sequence_id event =
    if sequence_id == 0
    then raised (value_error (text "sequence_id must be greater than 0."))
    else returned (record { sequence_id = sequence_id; event = event })
