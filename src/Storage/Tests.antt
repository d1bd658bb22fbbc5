-- ===== src/Storage/Tests.antt =====
-- Services in memory, an event of a user, and a replay over ten days.
use streaming_lab.Prelude.{
  ℕ, ◌+◌, ◌*◌, ◌≡◌, refl, String, true, false, Option, none, some, [], ◌∷◌, arith, if◌then◌else◌,
  string_eq, str_eq,
}
use streaming_lab.Dict.{Dict, lookup}
use streaming_lab.Results.{ok}
use streaming_lab.Gateway.Value.{Value, number, text, object, Event, fields_of}
use streaming_lab.Gateway.Producer.{Pool, created, acked}
use streaming_lab.Storage.Memory.{
  plain, Contents, memory_redis, down_redis, down_clickhouse, two_rows, strict_s3, down_elastic,
}
use streaming_lab.Storage.Hot.{increment_counter, hot_get, hot_put, hot_batch_get}
use streaming_lab.Storage.Tiers.{Clock, Tiers, event_key, store_hot, store_event}
use streaming_lab.Storage.Expiry.{hot_batch_get-hot_get}
use streaming_lab.Storage.Stored.{store_event-hot_get, store_event_all_down}
use streaming_lab.Prelude.{◌⊎◌}
use streaming_lab.Gateway.Value.{no_fields}
use streaming_lab.Gateway.Producer.{
  send_event, begin_send, is_circuit_open, take_producer, get_producer,
}
use streaming_lab.Gateway.Api.{EventCreate, Moment, enriched_event, key_of, ingest_single}
use streaming_lab.Gateway.Ingest.{Reached}
use streaming_lab.Storage.Ingested.{run_tasks, ingested_is_kept}
use streaming_lab.Storage.Retention.{
  default_policy, kafka_window, clickhouse_window, cold_window, covers, plan_exact, days_before,
}
use streaming_lab.Storage.Durable.{
  Sending, HybridSourceOfTruth, store_to_kafka, store_event_with_durability, durable_only_in_kafka,
}
use streaming_lab.Storage.Replay.{Calendar, Replayed, replay_events_from_source}
use streaming_lab.Storage.Replayed.{counted, send_empty, rows_for, replay_only_clickhouse}

abbrev empty_cluster : Contents
empty_cluster t k = none

abbrev event : Event
event = ("event_id", text "e1") ∷ ("user_id", number 5) ∷ []

abbrev put_at : ℕ → Contents
put_at now = (hot_put plain memory_redis now "event:e1" (number 7) (some 60) empty_cluster).1

hot_batch_get-hot_get_example :
    (d : Dict String Value) × ((hot_batch_get plain memory_redis 130
        ("event:e1" ∷ "event:e2" ∷ [])
        (put_at 100)).0
      ≡ ok d)
    × (lookup "event:e1" d ≡ (hot_get plain memory_redis 130 "event:e1" (put_at 100)).0)
unfolding hot_put
hot_batch_get-hot_get_example =
    hot_batch_get-hot_get plain memory_redis 130 ("event:e1" ∷ "event:e2" ∷ []) (put_at 100)
      (some (number 7) ∷ none ∷ []) (some (number 7)) "event:e1" refl refl refl (λ b h. (b, refl))

abbrev clock : Clock
clock = record {
  now = 100;
  isoformat = "2025-01-15T12:00:00";
  minute = "2025-01-15-12-00";
  today = "2025-01-15";
  month = "2025-01";
  hour = "12";
}

abbrev up : Tiers plain memory_redis down_clickhouse strict_s3 down_elastic
up = record { hot = some empty_cluster; warm = some (tt ∷ []); cold = some []; searched = some tt }

store_event-hot_get_example :
    let key = event_key plain memory_redis down_clickhouse strict_s3 down_elastic event in
    let value = object (fields_of event) in
    (hot_get plain memory_redis 3699 key
      (hot_put plain memory_redis 100 key value (some 3600) empty_cluster).1).0
    ≡ some value
unfolding hot_put store_event store_hot increment_counter lookup
store_event-hot_get_example =
    let key = event_key plain memory_redis down_clickhouse strict_s3 down_elastic event in
    let value = object (fields_of event) in
    store_event-hot_get plain memory_redis down_clickhouse strict_s3 down_elastic clock event up
      empty_cluster (hot_put plain memory_redis 100 key value (some 3600) empty_cluster).1 3699
      (some value) refl refl refl (omega arith) refl

store_event_all_down_example :
    let tiers : Tiers plain down_redis down_clickhouse strict_s3 down_elastic = record {
      hot = some empty_cluster;
      warm = some (tt ∷ []);
      cold = some [];
      searched = some tt;
    } in
    store_event plain down_redis down_clickhouse strict_s3 down_elastic clock event tiers
    ≡ (true, tiers)
store_event_all_down_example =
    store_event_all_down plain down_redis down_clickhouse strict_s3 down_elastic
      (record {
        commands = λ now command c. refl;
        counters = λ now k n c. refl;
        statements = λ s c. refl;
        bulks = λ name items c. refl;
      })
      clock event
      (record {
        hot = some empty_cluster;
        warm = some (tt ∷ []);
        cold = some [];
        searched = some tt;
      })

abbrev pool : Pool
pool = created 1 1 1

abbrev source : Option Pool → HybridSourceOfTruth plain memory_redis two_rows strict_s3 down_elastic
source producer = record {
  storage = record { hot = none; warm = some (tt ∷ []); cold = some []; searched = none };
  kafka_producer = producer;
  policy = default_policy;
}

abbrev sending : Sending
sending = record { begun = 100; answered = 110; outcome = acked }

durable_only_in_kafka_example :
    store_event_with_durability plain memory_redis two_rows strict_s3 down_elastic clock sending
      event
      (source none)
    ≡ (record { kafka = false; cold_storage = false; stream_processing = false }, source none)
unfolding store_to_kafka
durable_only_in_kafka_example =
    durable_only_in_kafka plain memory_redis two_rows strict_s3 down_elastic clock sending event
      (source none) (λ request c. refl)

abbrev request : EventCreate
request = record {
  user_id = some 5;
  session_id = some "s";
  event_type = "click";
  event_name = none;
  properties = no_fields;
  url = none;
  referrer = none;
  user_agent = none;
  ip_address = none;
  country = none;
  city = none;
}

abbrev moment : Moment
moment = record {
  isoformat = "2025-01-15T12:00:00";
  date_partition = "2025-01-15";
  seconds = 1736942400;
}

abbrev stored_value : Value
stored_value = object (fields_of (enriched_event "e1" moment request))

abbrev hot_after : Contents
hot_after = (hot_put plain memory_redis 100 "event:e1" stored_value (some 3600) empty_cluster).1

-- Without a client the send fails, and the event is stored directly.
ingested_is_kept_example :
    (Reached
        (begin_send 1000 (key_of (some 5) (text "e1")) (enriched_event "e1" moment request) pool)
        acked
      × ((ingest_single "e1" moment 1000 1010 acked request pool).tasks ≡ []))
    ⊎ ((¬ Reached
          (begin_send 1000 (key_of (some 5) (text "e1")) (enriched_event "e1" moment request) pool)
          acked)
        × ((hot_get plain memory_redis 3699 "event:e1" hot_after).0 ≡ some stored_value))
unfolding hot_put store_event store_hot increment_counter lookup run_tasks ingest_single send_event
    begin_send is_circuit_open take_producer get_producer created enriched_event
ingested_is_kept_example =
    ingested_is_kept plain memory_redis down_clickhouse strict_s3 down_elastic "e1" moment 1000 1010
      acked request pool clock up empty_cluster hot_after 3699 (some stored_value) refl refl refl
      (omega arith) refl

plan_exact_example :
    let t = 12 * 86400 in
    (covers (kafka_window (10 * 86400) (20 * 86400) (14 * 86400)) t
        + covers (clickhouse_window (10 * 86400) (20 * 86400) (14 * 86400) (11 * 86400)) t
        + covers (cold_window (10 * 86400) (20 * 86400) (11 * 86400)) t
      ≡ 1)
    × (covers (kafka_window (10 * 86400) (20 * 86400) (14 * 86400)) t ≡ 0)
    × (covers (cold_window (10 * 86400) (20 * 86400) (11 * 86400)) t ≡ 0)
plan_exact_example =
    plan_exact (10 * 86400) (20 * 86400) (14 * 86400) (11 * 86400) (12 * 86400) (omega arith)

abbrev calendar : Calendar
calendar = record {
  fromisoformat = λ s. some (if str_eq s "2024-01-05" then 8640000 else 9504000);
  isoformat = λ t. "";
  date_path = λ day. "";
}

replay_only_clickhouse_example :
    let n = counted (some pool) (
      rows_for plain memory_redis two_rows strict_s3 down_elastic calendar
        (λ i. sending)
        (clickhouse_window 8640000 9504000 (393 * 86400) (40 * 86400))
        (some (tt ∷ []))) in
    (results : Replayed) × (source' : HybridSourceOfTruth plain memory_redis two_rows strict_s3
      down_elastic)
    × (replay_events_from_source plain memory_redis two_rows strict_s3 down_elastic calendar
          (λ i. sending)
          (400 * 86400)
          "2024-01-05"
          "2024-01-10"
          (source (some pool))
        ≡ ok (results, source'))
    × (results.total_events ≡ n)
    × (source'.kafka_producer ≡ send_empty (λ i. sending) n 0 (some pool))
unfolding days_before
replay_only_clickhouse_example =
    replay_only_clickhouse plain memory_redis two_rows strict_s3 down_elastic calendar
      (λ i. sending) (400 * 86400) 8640000 9504000 (393 * 86400) (40 * 86400) "2024-01-05"
      "2024-01-10" (source (some pool)) refl refl refl refl
