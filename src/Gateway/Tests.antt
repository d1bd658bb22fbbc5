-- ===== src/Gateway/Tests.antt =====
-- A pool of two clients, a worker of batches of three, and requests of one event and of two.
use mathlib.Core.List.{Perm}
use streaming_lab.Prelude.{
  ℕ, ◌+◌, ◌≡◌, refl, String, true, false, Option, none, some, List, [], ◌∷◌, ◌++◌, length, leb,
  arith, if◌then◌else◌, string_eq,
}
use streaming_lab.Results.{ok}
use streaming_lab.Gateway.Value.{no_fields, null, text, Event}
use streaming_lab.Gateway.Producer.{
  Item, Pool, created, start_pool, start_producers, get_producer, refused, take_producer,
  begin_send, acked, kafka_error, complete_send, metadata, future, item_error, batch_messages,
  send_batch,
}
use streaming_lab.Gateway.Breaker.{starting, Reachable, fresh, stepped, closed}
use streaming_lab.Gateway.Breaker.Trips.{
  fail_all, breaker_trips, circuit_open-Reachable, send_batch-closed,
}
use streaming_lab.Gateway.RoundRobin.{get_producers, round_robin}
use streaming_lab.Gateway.Worker.{serve, arrivals, handed, of_topic, worker_delivers}
use streaming_lab.Gateway.Api.{EventCreate, Moment, enrich_all, ingest_batch, batch_key}
use streaming_lab.Gateway.Ingest.{ingest_batch_counts, batch_is_stored_too}

-- The pool of two clients, both of which came up.
abbrev pool : Pool
pool = (start_pool (λ i. true) (created 2 3 50)).0

pool-Reachable : Reachable 2 3 50 pool
pool-Reachable = stepped (created 2 3 50) pool fresh (starting (λ i. true) (created 2 3 50))

abbrev click : Event
click = ("event_type", text "click") ∷ []

breaker_trips_example :
    let failed =
      (complete_send 900 kafka_error
        (fail_all (200 ∷ 300 ∷ []) (complete_send 100 acked pool).1)).1 in
    begin_send 1000 null click failed ≡ (
      if leb 10 (2 + 1)
      then (if leb 1000 (900 + 60000)
          then (refused, failed)
          else take_producer 1000 null click (closed failed))
      else take_producer 1000 null click failed)
breaker_trips_example = breaker_trips 100 900 1000 (200 ∷ 300 ∷ []) null click pool-Reachable

circuit_open-Reachable_example : pool.circuit_open ≡ leb 10 pool.failure_count
circuit_open-Reachable_example = circuit_open-Reachable pool-Reachable

send_batch-closed_example :
    ((send_batch 1000 batch_key (click ∷ []) (item_error ∷ []) pool).pool.circuit_open ≡ false)
    × ((send_batch 1000 batch_key (click ∷ []) (item_error ∷ []) pool).pool.failure_count
        ≡ pool.failure_count)
unfolding start_pool start_producers created
send_batch-closed_example =
    send_batch-closed 1000 batch_key (click ∷ []) (item_error ∷ []) pool refl

round_robin_example :
    (ps : List ℕ) × (get_producers (length pool.producers) pool
      ≡ ok (ps, record pool { producer_index = pool.producer_index + length pool.producers }))
    × Perm ps pool.producers
unfolding start_pool start_producers created
round_robin_example = round_robin pool (omega arith)

abbrev item : String → Item
item t = record { topic = t; event = click; timestamp = 0 }

abbrev ticks : List (ℕ × Option Item)
ticks = (10, some (item "a")) ∷ (20, some (item "b")) ∷ (30, some (item "a")) ∷ (40, none) ∷ []

worker_delivers_example :
    handed "a" (serve pool ticks (record { batch = []; last_send = 0 })).0
      ++ of_topic "a" (serve pool ticks (record { batch = []; last_send = 0 })).1.batch
    ≡ of_topic "a" (arrivals ticks)
worker_delivers_example = worker_delivers "a" pool ticks (record { batch = []; last_send = 0 })

abbrev request : EventCreate
request = record {
  user_id = some 5;
  session_id = none;
  event_type = "click";
  event_name = none;
  properties = no_fields;
  url = none;
  referrer = none;
  user_agent = none;
  ip_address = none;
  country = none;
  city = none;
}

abbrev moment : Moment
moment = record {
  isoformat = "2025-01-01T00:00:00";
  date_partition = "2025-01-01";
  seconds = 1735689600;
}

abbrev ids : ℕ → String
ids i = "id"

ingest_batch_counts_example :
    let r =
      ingest_batch none "batch" moment ids 1000
        (request ∷ request ∷ [])
        (item_error ∷ metadata ∷ [])
        pool in
    (r.processed_count + r.failed_count ≡ 2) × (length r.tasks ≡ r.failed_count)
ingest_batch_counts_example =
    ingest_batch_counts none "batch" moment ids 1000 (request ∷ request ∷ [])
      (item_error ∷ metadata ∷ []) pool refl

-- Both clients take the events, and the future of the first ends the count.
batch_is_stored_too_example :
    let results = future ∷ item_error ∷ [] in
    let events = request ∷ request ∷ [] in
    let r = ingest_batch none "batch" moment ids 1000 events results pool in
    let enriched = enrich_all r.batch_id moment ids 0 events in
    ((send_batch 1000 batch_key enriched results pool).messages
      ≡ batch_messages 1000 batch_key enriched)
    × ((r.processed_count ≡ 0) × ((r.failed_count ≡ 2) × (r.tasks ≡ enriched)))
unfolding start_pool start_producers created get_producer
batch_is_stored_too_example =
    batch_is_stored_too none "batch" moment ids 1000 0 (request ∷ request ∷ [])
      (future ∷ item_error ∷ []) pool (record pool { producer_index = 1 }) (tt, (tt, tt)) refl refl
