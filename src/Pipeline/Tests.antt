-- ===== src/Pipeline/Tests.antt =====
-- Three events of the counting generator, of which the landing job has been handed two.
use mathlib.Core.List.Perm
use streaming_lab.Prelude.{ℕ, ◌++◌, String, List, [], ◌∷◌, map, str_eq, if◌then◌else◌}
use streaming_lab.Prelude.Int.{pos}
use streaming_lab.Events.Schema.{OrderEvent, order_created, order_cancelled, to_wire}
use streaming_lab.Events.GroundTruth.{GroundTruth}
use streaming_lab.Events.Generator.{produced}
use streaming_lab.Events.Tests.{window}
use streaming_lab.Lake.Memory.{Memory, memory}
use streaming_lab.Landing.State.{initial}
use streaming_lab.Landing.Job.{Job, Poll, message, resumed, run, job_of}
use streaming_lab.Query.Seam.{ChRow, materialize}
use streaming_lab.Query.Sides.{all_events}

abbrev made : String → String → String → ℕ → ℕ → ℕ → OrderEvent
made event_id order_id event_type cents user_id time = record {
  event_id = event_id;
  order_id = order_id;
  event_type = event_type;
  amount = pos cents;
  user_id = user_id;
  event_time_ms = time;
}

abbrev events : List OrderEvent
events =
    made "b" "a" order_created 3 4 1000
    ∷ made "c" "a" order_cancelled 3 4 1006
    ∷ made "e" "d" order_created 12 13 1011
    ∷ []

-- the broker's partitioner
abbrev partition_of : String → ℕ
partition_of id = if str_eq id "d" then 1 else 0

abbrev polls : List Poll
polls =
    message 10 0 0 (to_wire (made "b" "a" order_created 3 4 1000))
    ∷ message 11 1 0 (to_wire (made "e" "d" order_created 12 13 1011))
    ∷ []

abbrev job : Job memory
job = resumed window memory 0 memory.created initial

abbrev landed : Memory
landed = (job_of memory (run window memory 0 0 polls job)).table

-- The third event is consumed twice.
abbrev redelivered : List OrderEvent
redelivered = made "e" "d" order_created 12 13 1011 ∷ []

abbrev view : List ChRow
view = map materialize (all_events (produced partition_of events) 2 ++ redelivered)
