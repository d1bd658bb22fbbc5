-- ===== src/Events/GroundTruth.antt =====
-- src/streaming_lab/events/ground_truth.py: the independent count. `read_events` gives the events of
-- the file, one to a line.
use streaming_lab.Prelude.{ℕ, String, List, [], ◌∷◌, map, length, filter, ltb}
use streaming_lab.Prelude.Int.{ℤ, pos, ◌+ℤ◌}
use streaming_lab.Results.{Result, ok, ◌>>=◌}
use streaming_lab.Events.Schema.{OrderEvent, gmv_delta}

pub record GroundTruth : Type 0 where
  pub count : ℕ
  pub gmv : ℤ
  pub event_ids_below_t : List String
  pub count_below_t : ℕ
  pub gmv_below_t : ℤ

-- `sum((e.gmv_delta() for e in events), acc)`
unfoldable pub sum_deltas : ℤ → List OrderEvent → Result ℤ
sum_deltas acc [] = ok acc
sum_deltas acc (e ∷ events) = do d ← gmv_delta e; sum_deltas (acc +ℤ d) events

-- The set of ids is given as the list that it is made from.
unfoldable pub compute : List OrderEvent → ℕ → Result GroundTruth
compute events t_ms =
    let below = filter (λ (e : OrderEvent). ltb e.event_time_ms t_ms) events in
    do
      gmv ← sum_deltas (pos 0) events
      gmv_below ← sum_deltas (pos 0) below
      ok (record {
        count = length events;
        gmv = gmv;
        event_ids_below_t = map (λ (e : OrderEvent). e.event_id) below;
        count_below_t = length below;
        gmv_below_t = gmv_below;
      })
