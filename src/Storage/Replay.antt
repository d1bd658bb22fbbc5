-- ===== src/Storage/Replay.antt =====
-- `replay_events_from_source` of naive_mode/hybrid_source_of_truth.py, with what it replays from each
-- source. Reading from Kafka and the cold storage's objects of a day are placeholders in the code.
use streaming_lab.Prelude.{
  ℕ, zero, suc, ◌+◌, ◌-◌, ◌/◌, String, Bool, true, false, ◌&&◌, Option, none, some, List, [], ◌∷◌,
  ◌++◌, leb, ltb, if◌then◌else◌, string_eq,
}
use streaming_lab.Dict.{lookup}
use streaming_lab.Results.{Result, ok, raise, uncaught, ◌>>=◌}
use streaming_lab.Gateway.Value.{Value, null, text, Event, str_number, ◌<>◌}
use streaming_lab.Gateway.Producer.{Pool, send_event}
use streaming_lab.Storage.Services.{Json, Redis, ClickHouse, S3, Elastic}
use streaming_lab.Storage.Warm.{execute_query}
use streaming_lab.Storage.Retention.{
  day_seconds, deleted_before, Window, kafka_cutoff, clickhouse_cutoff, kafka_window,
  clickhouse_window, cold_window,
}
use streaming_lab.Storage.Durable.{Sending, HybridSourceOfTruth}

-- What `datetime` makes of texts without a UTC offset, and of times; the dates stay below the last
-- that it has.
pub record Calendar : Type 0 where
  pub fromisoformat : String → Option ℕ
  pub isoformat : ℕ → String
  -- `strftime('%Y/%m/%d')` of a day
  pub date_path : ℕ → String

-- `_replay_from_kafka`
unfoldable pub replay_from_kafka : Window → ℕ
replay_from_kafka window = 0

unfoldable pub get_daily_events_from_cold_storage : String → List Event
get_daily_events_from_cold_storage date_path = []

abbrev pub select_query : String
select_query =
    "SELECT * FROM events WHERE timestamp >= %(start_date)s AND timestamp < %(end_date)s ORDER BY timestamp"

abbrev pub delete_query : String
delete_query = "ALTER TABLE events DELETE WHERE timestamp < %(cutoff_date)s"

-- `send_event(target_topic, event)`, where `sends` gives the send of each number
unfoldable pub resend : (ℕ → Sending) → ℕ → Event → Option Pool → ℕ × Option Pool
resend sends n event none = (n, none)
resend sends n event (some pool) =
    let s = sends n in (n + 1, some (send_event s.begun s.answered s.outcome null event pool).1)

module _ (Answer : Type 0) where
  unfoldable pub clickhouse_row_to_event : Answer → Event
  clickhouse_row_to_event event_row = []

  unfoldable pub resend_rows : (ℕ → Sending) → List Answer → ℕ → Option Pool → ℕ × Option Pool
  resend_rows sends [] n producer = (n, producer)
  resend_rows sends (event_row ∷ rows) n producer =
      let (m, producer') = resend sends n (clickhouse_row_to_event event_row) producer in
      resend_rows sends rows m producer'

module _ (calendar : Calendar) (sends : ℕ → Sending) where
  -- `fromisoformat(event['timestamp'])`
  abbrev pub event_time : Option Value → Option ℕ
  event_time none = none
  event_time (some null) = none
  event_time (some (Value.number n)) = none
  event_time (some (Value.object f)) = none
  event_time (some (text s)) = calendar.fromisoformat s

  -- The events of a day that are within the window are sent; the first component is false when a
  -- time is missing, which raises.
  unfoldable pub resend_daily : Window → List Event → ℕ → Option Pool → Bool × ℕ × Option Pool
  resend_daily window [] n producer = (true, n, producer)
  resend_daily window (event ∷ events) n producer = elim (event_time (lookup "timestamp" event)) [
    | none ↦ (false, n, producer)
    | some t ↦
        let sent = resend sends n event producer in
        let next = if leb window.0 t && ltb t window.1 then sent else (n, producer) in
        resend_daily window events next.0 next.1
  ]

  -- `while current_date <= end_date`, where so many days are left; an exception makes the count 0.
  unfoldable pub resend_days : Window → ℕ → ℕ → ℕ → Option Pool → ℕ × Option Pool
  resend_days window zero current_date n producer = (n, producer)
  resend_days window (suc left) current_date n producer =
      let (read, m, producer') =
        resend_daily window (get_daily_events_from_cold_storage (calendar.date_path current_date)) n
          producer in
      let rest = resend_days window left (current_date + 1) m producer' in
      if read then rest else (0, producer')

  abbrev pub day_of : ℕ → ℕ
  day_of t = t / day_seconds

  -- no day when the window ends before it starts
  unfoldable pub replay_from_cold_storage :
      {Store : Type 0} → Window → Option Store → Option Pool → ℕ × Option Pool
  replay_from_cold_storage window none producer = (0, producer)
  replay_from_cold_storage window (some store) producer =
      resend_days window (day_of window.1 + 1 - day_of window.0) (day_of window.0) 0 producer

  abbrev pub window_params : Window → List (String × Value)
  window_params window =
      ("start_date", text (calendar.isoformat window.0))
      ∷ ("end_date", text (calendar.isoformat window.1))
      ∷ []

pub record Replayed : Type 0 where
  pub total_events : ℕ
  pub sources_used : List String
  pub errors : List String

-- what a source has replayed
unfoldable pub add_source : String → ℕ → Replayed → Replayed
add_source name n results = record results {
  total_events = results.total_events + n;
  sources_used = results.sources_used ++ (name <> ":" <> str_number n) ∷ [];
}

abbrev pub required {ℓ} : {A : Type ℓ} → Option A → Result A
required none = raise uncaught
required (some a) = ok a

abbrev pub ask_kafka : Option Window → Replayed → Replayed
ask_kafka none results = results
ask_kafka (some window) results = add_source "kafka" (replay_from_kafka window) results

module _ (json : Json) (redis : Redis json.Bytes) (clickhouse : ClickHouse) (s3 : S3 json.Bytes)
    (elastic : Elastic) (calendar : Calendar) (sends : ℕ → Sending) where
  abbrev Source : Type 0
  Source = HybridSourceOfTruth json redis clickhouse s3 elastic

  -- `_replay_from_clickhouse`: the count, the servers and the producer
  unfoldable pub replay_from_clickhouse :
      Window
      → Option (List clickhouse.Server)
      → Option Pool
      → ℕ × Option (List clickhouse.Server) × Option Pool
  replay_from_clickhouse window none producer = (0, none, producer)
  replay_from_clickhouse window (some servers) producer =
      let (rows, servers') =
        execute_query json clickhouse select_query (window_params calendar sends window) servers in
      let (n, producer') = resend_rows clickhouse.Answer sends rows 0 producer in
      (n, some servers', producer')

  abbrev pub ask_clickhouse : Option Window → Replayed → Source → Replayed × Source
  ask_clickhouse none results source = (results, source)
  ask_clickhouse (some window) results source =
      let (n, warm, producer) =
        replay_from_clickhouse window source.storage.warm source.kafka_producer in
      (
        add_source "clickhouse" n results,
        record source {
          storage = record source.storage { warm = warm };
          kafka_producer = producer;
        },
      )

  abbrev pub ask_cold : Option Window → Replayed → Source → Replayed × Source
  ask_cold none results source = (results, source)
  ask_cold (some window) results source =
      let (n, producer) =
        replay_from_cold_storage calendar sends window source.storage.cold source.kafka_producer in
      (add_source "cold_storage" n results, record source { kafka_producer = producer })

  abbrev pub nothing_replayed : Replayed
  nothing_replayed = record { total_events = 0; sources_used = []; errors = [] }

  unfoldable pub replay_between : ℕ → ℕ → ℕ → ℕ → Source → Replayed × Source
  replay_between start end_ recent medium source =
      let from_kafka = ask_kafka (kafka_window start end_ recent) nothing_replayed in
      let (from_clickhouse, source') =
        ask_clickhouse (clickhouse_window start end_ recent medium) from_kafka source in
      ask_cold (cold_window start end_ medium) from_clickhouse source'

  -- A text that is no time, and a cutoff before the least time, raise.
  unfoldable pub replay_events_from_source :
      ℕ → String → String → Source → Result (Replayed × Source)
  replay_events_from_source current start_date end_date source = do
    start ← required (calendar.fromisoformat start_date)
    end_ ← required (calendar.fromisoformat end_date)
    recent ← required (kafka_cutoff source.policy current)
    medium ← required (clickhouse_cutoff source.policy current)
    ok (replay_between start end_ recent medium source)

  abbrev delete_rows : Option ℕ → Option (List clickhouse.Server) → Option (List clickhouse.Server)
  delete_rows none warm = warm
  delete_rows (some cutoff) none = none
  delete_rows (some cutoff) (some servers) =
      some
        (execute_query json clickhouse delete_query
          (("cutoff_date", text (calendar.isoformat cutoff)) ∷ []) servers).1

  -- An exception is caught, and nothing is deleted.
  unfoldable pub cleanup_expired_data : ℕ → Source → Source
  cleanup_expired_data current source = record source {
    storage = record source.storage {
      warm = delete_rows (deleted_before source.policy current) source.storage.warm;
    };
  }
