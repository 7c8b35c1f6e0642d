-- ===== src/Events/Examples.antt =====
-- Sinks of src/relprim/events.py, and a use of the theorem on a sink that raises.
use relprim.Prelude.{◌≡◌, refl, List, [], ◌∷◌}
use relprim.Prelude.Int.{pos}
use relprim.Prelude.Text.{is_blank}
use relprim.Values.{offset, Datetime, text}
use relprim.Errors.{runtime_error}
use relprim.Outcome.{returned, raised, ◌>>◌}
use relprim.Checks.{check_aware, freeze_json_scalars}
use relprim.Events.{StructuredEvent, EventSink, EventType, deliver, new_event}
use relprim.Events.InMemory as Memory
use relprim.Events.Delivery.{deliver_in_order}

abbrev noon : Datetime
noon = record { wall = pos 0; tzinfo = offset (pos 0) }

abbrev started : StructuredEvent
started = record {
  event_type = EventType.operation_started;
  operation_name = "load";
  timestamp = noon;
  payload = [];
}

started_built : new_event EventType.operation_started "load" noon [] ≡ returned started
unfolding new_event is_blank check_aware freeze_json_scalars
started_built = refl

abbrev broken : EventSink (List StructuredEvent)
broken event events = (raised (runtime_error (text "disk full")), events)

first_delivered : deliver (Memory.emit ∷ []) started [] ≡ (returned tt, started ∷ [])
unfolding deliver Memory.emit
first_delivered = refl

stopped_delivery :
    deliver (Memory.emit ∷ broken ∷ Memory.emit ∷ []) started []
    ≡ (raised (runtime_error (text "disk full")), started ∷ [])
unfolding deliver Memory.emit
stopped_delivery = refl

deliver_in_order_example :
    (deliver (broken ∷ []) started [] ≡ broken started [])
    × (deliver (Memory.emit ∷ broken ∷ []) started []
        ≡ (deliver (Memory.emit ∷ []) started >> deliver (broken ∷ []) started) [])
deliver_in_order_example = deliver_in_order (Memory.emit ∷ []) (broken ∷ []) broken started []
