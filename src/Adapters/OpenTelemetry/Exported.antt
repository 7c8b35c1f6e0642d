-- ===== src/Adapters/OpenTelemetry/Exported.antt =====
-- The span event that an event becomes, and its time.
use relprim.Prelude.{◌*◌, ◌/◌, ◌%◌, ◌≡◌, ap, Bool, true, false, arith}
use relprim.Prelude.Int.{ℤ, pos, negsuc, ◌+ℤ◌, ◌-ℤ◌}
use relprim.Values.{ticks_per_second, Metadata, offset, Datetime}
use relprim.Outcome.{Outcome, returned, raised, interrupted, Action, ◌>>=◌}
use Prim.Native.String.{◌++◌ as concat}
use relprim.Adapters.OpenTelemetry.{
  event_value, export_event, StructuredEvent, event_attributes, emit, Span, floor_day, timestamp_ns,
  since_epoch, times,
}
use relprim.Adapters.OpenTelemetry.Attributes.{DistinctKeys, IsExport, event_attributes-IsExport}

assembled :
    (z : ℤ)
    → times (times (floor_day z).0 86400 +ℤ pos ((floor_day z).1 / ticks_per_second)) 1000000000
        +ℤ pos ((floor_day z).1 % ticks_per_second * 1000)
      ≡ times z 1000
unfolding times ◌+ℤ◌
assembled (pos n) = ground arith
assembled (negsuc n) = ground arith

-- The instant in microseconds, a thousand times.
timestamp_ns_lem :
    (t : Datetime) (d : ℤ)
    → t.tzinfo ≡ offset d
    → timestamp_ns t ≡ returned (times (t.wall -ℤ d) 1000)
unfolding timestamp_ns since_epoch
timestamp_ns_lem t d h = rw h (ap (λ z. returned z) (assembled (t.wall -ℤ d)))

module _ {S : Type 0} where
  bind-returned :
      {A B : Type 0} (m : Action S A) (f : A → Action S B) (s s' : S) (a : A)
      → m s ≡ (returned a, s')
      → (m >>= f) s ≡ f a s'
  bind-returned m f s s' a h =
      ap
        (λ p. elim p.0 [
          | returned a ↦ f a p.1
          | raised e ↦ (raised e, p.1)
          | interrupted i ↦ (interrupted i, p.1)
        ])
        h

  -- What the sink does with a span, at an instant, by whether the span is recording.
  pub data Emitted (span : Span S) (event : StructuredEvent) (instant : ℤ) (s : S)
      : Bool → Outcome (Unit {0}) × S → Type 0 where
    silent : Emitted span event instant s false (returned tt, s)
    exported :
        (attributes : Metadata)
        → IsExport event attributes
        → Emitted span event instant s true (
            span.add_event
              (concat "relprim." (event_value event.event_type))
              attributes
              (times instant 1000)
              s)

  export_event-Emitted :
      (span : Span S) (event : StructuredEvent) (d : ℤ) (recording : Bool) (s : S)
      → event.timestamp.tzinfo ≡ offset d
      → DistinctKeys event.payload
      → Emitted span event
          (event.timestamp.wall -ℤ d)
          s
          recording
          (export_event span event recording s)
  unfolding export_event
  export_event-Emitted span event d false s h distinct = silent
  export_event-Emitted span event d true s h distinct =
      rw (timestamp_ns_lem event.timestamp d h)
        (exported (event_attributes event) (event_attributes-IsExport event distinct))

  -- For an event with an aware timestamp and a payload without a repeated key, the sink leaves a
  -- span that is not recording alone, and makes one call of add_event of a span that is: at the
  -- instant of the event in nanoseconds, a thousand times its microseconds, and with attributes
  -- that hold the type, the name of the operation, and under the prefix relprim.payload. just the
  -- items of the payload that are not None.
  pub emit-Emitted :
      (span_getter : Action S (Span S)) (span : Span S) (event : StructuredEvent) (d : ℤ)
      (recording : Bool) (s s1 s2 : S)
      → span_getter s ≡ (returned span, s1)
      → span.is_recording s1 ≡ (returned recording, s2)
      → event.timestamp.tzinfo ≡ offset d
      → DistinctKeys event.payload
      → Emitted span event (event.timestamp.wall -ℤ d) s2 recording (emit span_getter event s)
  unfolding emit
  emit-Emitted span_getter span event d recording s s1 s2 got asked h distinct =
      let exporting =
        λ (asked_span : Span S). asked_span.is_recording >>= export_event asked_span event in
      rw
        (
          bind-returned span_getter exporting s s1 span got,
          bind-returned span.is_recording (export_event span event) s1 s2 recording asked,
        )
        (export_event-Emitted span event d recording s2 h distinct)
