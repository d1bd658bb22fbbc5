-- ===== src/Pipeline.antt =====
-- The whole way, from the generator of src/streaming_lab/events/generator.py over the partitions of
-- the topic and the landing job to the query of src/streaming_lab/query/seam.py, and the bootstrap.
pub mod Bootstrap
pub mod Tests
use streaming_lab.Prelude.{List, length, filter, ◌-◌, str_eq}
use streaming_lab.Prelude.Perms.{sum_by}
use streaming_lab.Config.{Config}
use streaming_lab.Events.Schema.{OrderEvent, order_created}
use streaming_lab.Events.GroundTruth.{GroundTruth}
use streaming_lab.Events.Generator.{GenSummary}
use streaming_lab.Query.Sides.{delta}

-- What the generator returns beside its events.
abbrev summary_of : List OrderEvent → GenSummary
summary_of events =
    let created = length (filter (λ (e : OrderEvent). str_eq e.event_type order_created) events) in
    record {
      total = length events;
      created = created;
      cancelled = length events - created;
      gmv = sum_by delta events;
    }
