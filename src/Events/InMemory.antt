-- ===== src/Events/InMemory.antt =====
-- `InMemoryEventSink` of src/relprim/events.py: the state is the list of its events.
use relprim.Prelude.{List, [], ◌∷◌, ◌++◌}
use relprim.Outcome.{returned, Action}
use relprim.Events.{StructuredEvent, EventSink}

abbrev pub State : Type 0
State = List StructuredEvent

unfoldable pub emit : EventSink State
emit event events = (returned tt, events ++ event ∷ [])

unfoldable pub events : Action State (List StructuredEvent)
events s = (returned s, s)

unfoldable pub clear : Action State (Unit {0})
clear s = (returned tt, [])
