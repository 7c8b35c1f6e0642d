-- ===== src/Events.antt =====
-- src/relprim/events.py: structured events, the in-memory sink, and the emitter.
pub mod InMemory
pub mod Delivery
mod Examples
use relprim.Prelude.{String, List, [], ◌∷◌, if◌then◌else◌}
use relprim.Prelude.Text.{is_blank}
use relprim.Values.{Metadata, Datetime, text}
use relprim.Errors.{value_error}
use relprim.Outcome.{
  Outcome, returned, raised, interrupted, bind_outcome, Action, pure, lift, ◌>>=◌, ◌>>◌,
}
use relprim.Checks.{check_aware, freeze_json_scalars, Mapping}

pub data EventType : Type 0 where
  attempt_started attempt_succeeded attempt_failed : EventType
  circuit_breaker_rejected : EventType
  fallback_started fallback_succeeded fallback_failed : EventType
  operation_started operation_succeeded operation_failed : EventType
  rate_limit_detected rate_limit_wait_exceeded : EventType
  retry_scheduled : EventType
  validation_succeeded validation_failed : EventType

pub record StructuredEvent : Type 0 where
  pub event_type : EventType
  pub operation_name : String
  pub timestamp : Datetime
  pub payload : Metadata

-- `StructuredEvent(...)` with `__post_init__`.
unfoldable pub new_event : EventType → String → Datetime → Mapping → Outcome StructuredEvent
new_event event_type operation_name timestamp payload =
    if is_blank operation_name
    then raised (value_error (text "operation_name must not be empty."))
    else bind_outcome (check_aware "timestamp" timestamp) λ _.
      bind_outcome (freeze_json_scalars "payload" payload) λ frozen. returned (record {
        event_type = event_type;
        operation_name = operation_name;
        timestamp = timestamp;
        payload = frozen;
      })

abbrev pub EventSink : Type 0 → Type 0
EventSink S = StructuredEvent → Action S (Unit {0})

-- `NoopEventSink.emit`
unfoldable pub discard : {S : Type 0} → EventSink S
discard event s = (returned tt, s)

pub record EventEmitter (S : Type 0) : Type 0 where
  pub sinks : List (EventSink S)
  pub timestamp_factory : Action S Datetime

module _ {S : Type 0} where
  -- `EventEmitter(...)` with `__post_init__`.
  unfoldable pub new_emitter : List (EventSink S) → Action S Datetime → Outcome (EventEmitter S)
  new_emitter [] timestamp_factory =
      raised (value_error (text "sinks must contain at least one event sink."))
  new_emitter (sink ∷ sinks) timestamp_factory =
      returned (record { sinks = sink ∷ sinks; timestamp_factory = timestamp_factory })

  -- The loop over the sinks: the first one that does not return ends it.
  unfoldable pub deliver : List (EventSink S) → EventSink S
  deliver [] event s = (returned tt, s)
  deliver (sink ∷ sinks) event s =
      let (o, s') = sink event s in
      elim o [
        | returned _ ↦ deliver sinks event s'
        | raised e ↦ (raised e, s')
        | interrupted i ↦ (interrupted i, s')
      ]

  -- `EventEmitter.emit`, with the payload or an empty one.
  unfoldable pub emit : EventEmitter S → EventType → String → Mapping → Action S StructuredEvent
  unfolding deliver new_event
  emit emitter event_type operation_name payload = do
    timestamp ← emitter.timestamp_factory
    event ← lift (new_event event_type operation_name timestamp payload)
    deliver emitter.sinks event
    pure event
