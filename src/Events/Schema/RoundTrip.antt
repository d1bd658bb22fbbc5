-- ===== src/Events/Schema/RoundTrip.antt =====
-- Events on the wire and back.
use streaming_lab.Prelude.{◌≡◌, arith, if◌then◌else◌}
use streaming_lab.Results.{ok, raise, value_error}
use streaming_lab.Text.RoundTrip.{read_amount-text}
use streaming_lab.Events.Schema.{OrderEvent, is_event_type, to_wire, from_wire}

-- Reading back what an event was sent as gives that event, unless its type is unknown: then the
-- reader raises.
pub from_wire-to_wire :
    (e : OrderEvent)
    → from_wire (to_wire e) ≡ (if is_event_type e.event_type then ok e else raise value_error)
unfolding from_wire to_wire
from_wire-to_wire e = ground (arith, read_amount-text e.amount)

-- Whatever an event was read as from its own wire form, it is that event.
pub from_wire-to_wire_eq :
    (e : OrderEvent) {e' : OrderEvent} → from_wire (to_wire e) ≡ ok e' → e' ≡ e
from_wire-to_wire_eq e h = ground (arith, from_wire-to_wire e)
