-- ===== src/Query/Exact.antt =====
-- The seam counts every event exactly once, and on the side of ClickHouse each redelivery once more:
-- the Kafka engine delivers at least once.
use streaming_lab.Query.Sides.{delta, older, newer, HasKnownType, sum_deltas_lem}
use streaming_lab.Prelude.{ℕ, ◌+◌, ◌≡◌, List, map, length, filter, All, All-filter}
use streaming_lab.Prelude.Int.{pos, ◌+ℤ◌, zero-+ℤ}
use streaming_lab.Prelude.Perms.{sum_by}
use streaming_lab.Results.{ok}
use streaming_lab.Config.{Config}
use streaming_lab.Events.Schema.{OrderEvent}
use streaming_lab.Events.GroundTruth.{GroundTruth, compute}
use streaming_lab.Query.Seam.{SeamResult}

-- What the query returns at the watermark `t_ms`, and what the ground truth says, in terms of the
-- events that there are and of those that ClickHouse has consumed.
abbrev answer : List OrderEvent → List OrderEvent → ℕ → SeamResult
answer all seen t_ms =
    let old = filter (older t_ms) all in
    let new = filter (newer t_ms) seen in
    record {
      watermark_t_ms = t_ms;
      count = length old + length new;
      gmv = sum_by delta old +ℤ sum_by delta new;
      lake_count = length old;
      ch_count = length new;
      lake_gmv = sum_by delta old;
      ch_gmv = sum_by delta new;
    }

abbrev pub truth_of : List OrderEvent → ℕ → GroundTruth
truth_of events t_ms =
    let old = filter (older t_ms) events in
    record {
      count = length events;
      gmv = sum_by delta events;
      event_ids_below_t = map (λ (e : OrderEvent). e.event_id) old;
      count_below_t = length old;
      gmv_below_t = sum_by delta old;
    }

pub compute_lem :
    (events : List OrderEvent) (t_ms : ℕ)
    → All HasKnownType events
    → compute events t_ms ≡ ok (truth_of events t_ms)
unfolding compute
compute_lem events t_ms known = rw (
  sum_deltas_lem (pos 0) events known,
  sum_deltas_lem (pos 0) (filter (older t_ms) events)
      (All-filter HasKnownType (older t_ms) events known),
  zero-+ℤ (sum_by delta events),
  zero-+ℤ (sum_by delta (filter (older t_ms) events)),
)
