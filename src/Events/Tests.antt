-- ===== src/Events/Tests.antt =====
-- A generator whose draws count up: three orders, of which the third iteration cancels one.
use streaming_lab.Prelude.{
  ℕ, ◌+◌, ◌-◌, ◌≡◌, some, List, length, All, min, arith, ltb, ◌==◌, if◌then◌else◌,
}
use streaming_lab.Prelude.Int.{pos, ◌≤ℤ◌}
use streaming_lab.Prelude.Perms.{sum_by}
use streaming_lab.Config.{Config}
use streaming_lab.Results.{ok, raise, value_error}
use streaming_lab.Events.Schema.{OrderEvent, from_wire, to_wire, is_event_type, order_cancelled}
use streaming_lab.Events.Schema.RoundTrip.{from_wire-to_wire}
use streaming_lab.Events.Generator.{Rng, build_events}
use streaming_lab.Events.Generator.Stream.{build_events_total}
use streaming_lab.Landing.Disorder.{IsBounded}
use streaming_lab.Query.Sides.{delta, HasKnownType}

abbrev pub counting : Rng
counting = record {
  State = ℕ;
  seeded = λ seed. seed;
  randint = λ lo hi s. (min (lo + s) hi, s + 1);
  randrange = λ n s. (min s (n - 1), s + 1);
  cancels = λ s. (s == 6, s + 1);
  uuid = λ s. (
    if ltb s 2
        then "a"
        else if ltb s 5
        then "b"
        else if ltb s 9
        then "c"
        else if ltb s 11
        then "d"
        else "e",
    s + 1,
  );
  randint_bounds = λ lo hi s h. (omega arith, omega arith);
  randrange_lt = λ n s h. omega arith;
}

abbrev pub window : Config
window = record {
  num_partitions = 2;
  lateness_window_ms = 50;
  batch_max_events = 2;
  batch_max_ms = 2000;
}

build_events_total_example :
    (events : List OrderEvent) × (build_events counting window 1000 100 3 0 ≡ some (ok events))
    × (length events ≡ 3)
    × IsBounded 50 events
    × All HasKnownType events
    × (pos 0 ≤ℤ sum_by delta events)
build_events_total_example =
    build_events_total counting window 1000 100 3 0 (omega arith) (omega arith)

abbrev refund : OrderEvent
refund = record {
  event_id = "x";
  order_id = "o";
  event_type = order_cancelled;
  amount = pos 1999;
  user_id = 3;
  event_time_ms = 1700;
}

from_wire-to_wire_example :
    from_wire (to_wire refund)
    ≡ (if is_event_type refund.event_type then ok refund else raise value_error)
from_wire-to_wire_example = from_wire-to_wire refund
