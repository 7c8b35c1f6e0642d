-- ===== src/Events/Delivery.antt =====
-- Which sinks of an emitter receive an event, and what emitting can raise.
use relprim.Prelude.{String, ◌≡◌, refl, Option, none, some, List, [], ◌∷◌, ◌++◌, All}
use relprim.Prelude.Text.{is_blank}
use relprim.Values.{Datetime}
use relprim.Errors.{value_error}
use relprim.Outcome.{Outcome, returned, raised, interrupted, pure, lift, ◌>>=◌, ◌>>◌}
use relprim.Checks.{check_aware, freeze_json_scalars, Mapping}
use relprim.Outcome.Safe.{
  Safe, bind-Safe, then-Safe, bind_outcome-Safe, if-Safe, IsForeign, Anything,
}
use relprim.Checks.Foreign.{check_aware-Safe, freeze_json_scalars-Safe}
use relprim.Events.{EventType, StructuredEvent, EventSink, EventEmitter, new_event, deliver, emit}

-- A sink or clock that raises no OperationExecutionError.
abbrev IsQuietSink : {S : Type 0} → EventSink S → Type 0
IsQuietSink {S} sink = (event : StructuredEvent) (s : S) → Safe IsForeign Anything (sink event s).0

abbrev pub IsQuiet : {S : Type 0} → Option (EventEmitter S) → Type 0
IsQuiet none = Unit {0}
IsQuiet {S} (some emitter) =
    All IsQuietSink emitter.sinks
    × ((s : S) → Safe IsForeign Anything (emitter.timestamp_factory s).0)

new_event-Safe :
    (t : EventType) (name : String) (at : Datetime) (m : Mapping)
    → Safe IsForeign Anything (new_event t name at m)
unfolding new_event
new_event-Safe t name at m =
    if-Safe IsForeign Anything (is_blank name) (raised (value_error _)) _ tt (
      bind_outcome-Safe IsForeign Anything Anything (check_aware "timestamp" at) _
        (check_aware-Safe "timestamp" at)
        (λ _ _.
          bind_outcome-Safe IsForeign Anything Anything (freeze_json_scalars "payload" m)
            (λ frozen.
              returned (record {
                event_type = t;
                operation_name = name;
                timestamp = at;
                payload = frozen;
              }))
            (freeze_json_scalars-Safe "payload" m) (λ _ _. tt)))

module _ {S : Type 0} where
  deliver_first :
      (o : Outcome (Unit {0})) (sinks : List (EventSink S)) (event : StructuredEvent) (s : S)
      → Safe IsForeign Anything o
      → Safe IsForeign Anything (deliver sinks event s).0
      → Safe IsForeign Anything
          (elim o as (λ _. Outcome (Unit {0}) × S) [
            | returned _ ↦ deliver sinks event s
            | raised e ↦ (raised e, s)
            | interrupted i ↦ (interrupted i, s)
          ]).0
  deliver_first (returned u) sinks event s h k = k
  deliver_first (raised e) sinks event s h k = h
  deliver_first (interrupted i) sinks event s h k = tt

  deliver-Safe :
      (sinks : List (EventSink S)) (event : StructuredEvent) (s : S)
      → All IsQuietSink sinks
      → Safe IsForeign Anything (deliver sinks event s).0
  unfolding deliver
  deliver-Safe [] event s q = tt
  deliver-Safe (sink ∷ sinks) event s (q, qs) =
      deliver_first (sink event s).0 sinks event (sink event s).1 (q event s)
        (deliver-Safe sinks event (sink event s).1 qs)

  pub emit-Safe :
      (emitter : EventEmitter S) (t : EventType) (name : String) (m : Mapping) (s : S)
      → IsQuiet (some emitter)
      → Safe IsForeign Anything (emit emitter t name m s).0
  unfolding emit
  emit-Safe emitter t name m s (sinks, clock) =
      bind-Safe IsForeign Anything Anything emitter.timestamp_factory
        (λ at. lift (new_event t name at m) >>= λ event. deliver emitter.sinks event >> pure event)
        s (clock s)
        (λ at _ u.
          bind-Safe IsForeign Anything Anything (lift (new_event t name at m))
            (λ event. deliver emitter.sinks event >> pure event) u (new_event-Safe t name at m)
            (λ event _ v.
              then-Safe IsForeign Anything (λ _ h. h) (deliver emitter.sinks event) (pure event) v
                (deliver-Safe emitter.sinks event v sinks) (λ _. tt)))

  deliver_then :
      (o : Outcome (Unit {0})) (u : S) (before after : List (EventSink S)) (event : StructuredEvent)
      → deliver (before ++ after) event u ≡ (deliver before event >> deliver after event) u
      → elim o as (λ _. Outcome (Unit {0}) × S) [
        | returned _ ↦ deliver (before ++ after) event u
        | raised e ↦ (raised e, u)
        | interrupted i ↦ (interrupted i, u)
      ]
        ≡ ((λ (_ : S). elim o as (λ _. Outcome (Unit {0}) × S) [
          | returned _ ↦ deliver before event u
          | raised e ↦ (raised e, u)
          | interrupted i ↦ (interrupted i, u)
        ])
              >> deliver after event)
            u
  deliver_then (returned _) u before after event h = h
  deliver_then (raised e) u before after event h = refl
  deliver_then (interrupted i) u before after event h = refl

  deliver-append :
      (before after : List (EventSink S)) (event : StructuredEvent) (s : S)
      → deliver (before ++ after) event s ≡ (deliver before event >> deliver after event) s
  unfolding deliver
  deliver-append [] after event s = refl
  deliver-append (sink ∷ before) after event s =
      deliver_then (sink event s).0 (sink event s).1 before after event
        (deliver-append before after event (sink event s).1)

  deliver_one :
      (o : Outcome (Unit {0})) (u : S)
      → elim o as (λ _. Outcome (Unit {0}) × S) [
        | returned _ ↦ (returned tt, u)
        | raised e ↦ (raised e, u)
        | interrupted i ↦ (interrupted i, u)
      ]
        ≡ (o, u)
  deliver_one (returned _) u = refl
  deliver_one (raised e) u = refl
  deliver_one (interrupted i) u = refl

  -- The sinks receive an event in their order: one sink alone ends as it does, an exception or an
  -- interruption included, and sinks before others go first, where the others receive the event, in
  -- the state that the first ones leave, exactly if all of the first ones return.
  pub deliver_in_order :
      (before after : List (EventSink S)) (sink : EventSink S) (event : StructuredEvent) (s : S)
      → (deliver (sink ∷ []) event s ≡ sink event s)
        × (deliver (before ++ after) event s ≡ (deliver before event >> deliver after event) s)
  unfolding deliver
  deliver_in_order before after sink event s =
      (deliver_one (sink event s).0 (sink event s).1, deliver-append before after event s)
