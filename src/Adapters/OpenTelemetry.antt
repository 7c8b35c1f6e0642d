-- ===== src/Adapters/OpenTelemetry.antt =====
-- src/relprim/opentelemetry.py: the sink that adds an event to the active span.
pub mod Attributes
pub mod Exported
use relprim.Prelude.{ℕ, suc, ◌-◌, ◌*◌, ◌/◌, ◌%◌, String, Bool, true, false, [], ◌∷◌}
use relprim.Prelude.Int.{ℤ, pos, negsuc, sub_ℕ, ◌+ℤ◌, ◌-ℤ◌}
use relprim.Values.{
  ticks_per_second, JsonScalar, null, str, Metadata, no_tzinfo, no_offset, offset, Datetime, text,
}
use relprim.Errors.{type_error}
use relprim.Outcome.{Outcome, returned, raised, bind_outcome, Action, pure, lift, ◌>>=◌}
use relprim.Prelude.Dict.{set_item}
use relprim.Events.{StructuredEvent, EventSink}
use relprim.SqliteEvents.Encoding.{event_value}
use Prim.Native.String.{◌++◌ as concat}

-- A timedelta, normalised: 0 ≤ seconds < 86400 and 0 ≤ microseconds < 1000000.
pub record Timedelta : Type 0 where
  pub days : ℤ
  pub seconds : ℕ
  pub microseconds : ℕ

-- What a Span is asked and told; S is the state in which it keeps its events.
pub record Span (S : Type 0) : Type 0 where
  pub is_recording : Action S Bool
  pub add_event : String → Metadata → ℤ → Action S (Unit {0})

abbrev pub day_ticks : ℕ
day_ticks = 86400 * ticks_per_second

-- The day of a number of microseconds, and the rest of it, by floor division.
abbrev pub floor_day : ℤ → ℤ × ℕ
floor_day (pos n) = (pos (n / day_ticks), n % day_ticks)
floor_day (negsuc n) = (negsuc (n / day_ticks), day_ticks - 1 - n % day_ticks)

abbrev pub timedelta : ℤ × ℕ → Timedelta
timedelta (day, rest) = record {
  days = day;
  seconds = rest / ticks_per_second;
  microseconds = rest % ticks_per_second;
}

-- `timestamp - _EPOCH`, which has an offset.
unfoldable pub since_epoch : Datetime → Outcome Timedelta
since_epoch t = elim t.tzinfo [
  | offset d ↦ returned (timedelta (floor_day (t.wall -ℤ d)))
  | no_tzinfo ↦ raised (type_error (text "can't subtract offset-naive and offset-aware datetimes"))
  | no_offset ↦ raised (type_error (text "can't subtract offset-naive and offset-aware datetimes"))
]

-- n * k
unfoldable pub times : ℤ → ℕ → ℤ
times (pos n) k = pos (n * k)
times (negsuc n) k = sub_ℕ 0 (suc n * k)

-- `_timestamp_ns`
unfoldable pub timestamp_ns : Datetime → Outcome ℤ
unfolding since_epoch times
timestamp_ns t = bind_outcome (since_epoch t) λ delta.
    let seconds = times delta.days 86400 +ℤ pos delta.seconds in
    returned (times seconds 1000000000 +ℤ pos (delta.microseconds * 1000))

-- One round of the loop over the payload.
abbrev pub add_item : Metadata → String → JsonScalar → Metadata
add_item attributes key null = attributes
add_item attributes key value = set_item (concat "relprim.payload." key) value attributes

unfoldable pub add_payload : Metadata → Metadata → Metadata
unfolding set_item
add_payload attributes [] = attributes
add_payload attributes ((key, value) ∷ payload) =
    add_payload (add_item attributes key value) payload

-- `_event_attributes`
unfoldable pub event_attributes : StructuredEvent → Metadata
unfolding add_payload
event_attributes event =
    add_payload
      (("relprim.event.type", str (event_value event.event_type))
        ∷ ("relprim.operation.name", str event.operation_name)
        ∷ [])
      event.payload

module _ {S : Type 0} where
  export_event : Span S → StructuredEvent → Bool → Action S (Unit {0})
  unfolding event_attributes timestamp_ns
  export_event span event false = pure tt
  export_event span event true =
      lift (timestamp_ns event.timestamp)
      >>= span.add_event (concat "relprim." (event_value event.event_type)) (event_attributes event)

  -- `OpenTelemetryEventSink.emit`
  unfoldable pub emit : Action S (Span S) → EventSink S
  unfolding export_event
  emit span_getter event =
      span_getter >>= λ span. span.is_recording >>= λ recording. export_event span event recording
