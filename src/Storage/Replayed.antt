-- ===== src/Storage/Replayed.antt =====
-- What a replay sends: of all sources only ClickHouse contributes, and only by its number of rows.
use streaming_lab.Prelude.{
  ℕ, zero, suc, ◌+◌, ◌≡◌, refl, ◌∙◌, ap, String, Option, none, some, List, [], ◌∷◌, length, arith,
  string_eq,
}
use streaming_lab.Results.{ok}
use streaming_lab.Gateway.Value.{null}
use streaming_lab.Gateway.Producer.{Pool, send_event}
use streaming_lab.Storage.Services.{Json, Redis, ClickHouse, S3, Elastic}
use streaming_lab.Storage.Warm.{execute_query}
use streaming_lab.Storage.Retention.{
  Window, kafka_cutoff, clickhouse_cutoff, kafka_window, clickhouse_window, cold_window,
}
use streaming_lab.Storage.Durable.{Sending, HybridSourceOfTruth}
use streaming_lab.Storage.Replay.{
  Calendar, replay_from_kafka, get_daily_events_from_cold_storage, select_query, resend,
  clickhouse_row_to_event, resend_rows, resend_daily, resend_days, replay_from_cold_storage,
  window_params, Replayed, add_source, ask_kafka, replay_from_clickhouse, ask_clickhouse, ask_cold,
  nothing_replayed, replay_between, replay_events_from_source,
}

-- With a producer every row counts, and without one none does.
abbrev pub counted : Option Pool → ℕ → ℕ
counted none n = 0
counted (some pool) n = n

-- The empty events go to the producer, so many of them.
abbrev pub send_empty : (ℕ → Sending) → ℕ → ℕ → Option Pool → Option Pool
send_empty sends zero n producer = producer
send_empty sends (suc left) n producer =
    send_empty sends left (n + 1) (resend sends n [] producer).1

counted-zero : (producer : Option Pool) → counted producer 0 ≡ 0
counted-zero none = refl
counted-zero (some pool) = refl

count-resend_rows :
    {Answer : Type 0} (sends : ℕ → Sending) (rows : List Answer) (n : ℕ) (pool : Pool)
    → resend_rows Answer sends rows n (some pool)
      ≡ (n + length rows, send_empty sends (length rows) n (some pool))
unfolding resend_rows clickhouse_row_to_event resend
count-resend_rows sends [] n pool = ap (λ (m : ℕ). (m, some pool)) (omega arith)
count-resend_rows sends (row ∷ rows) n pool =
    let s = sends n in
    let pool' = (send_event s.begun s.answered s.outcome null [] pool).1 in
    count-resend_rows sends rows (n + 1) pool'
    ∙ ap (λ (m : ℕ). (m, send_empty sends (length rows) (n + 1) (some pool'))) (omega arith)

resend_rows-none :
    {Answer : Type 0} (sends : ℕ → Sending) (rows : List Answer) (n : ℕ)
    → resend_rows Answer sends rows n none ≡ (n, none)
unfolding resend_rows resend
resend_rows-none sends [] n = refl
resend_rows-none sends (row ∷ rows) n = resend_rows-none sends rows n

resend_days-nothing :
    (calendar : Calendar) (sends : ℕ → Sending) (window : Window) (left day n : ℕ)
    (producer : Option Pool)
    → resend_days calendar sends window left day n producer ≡ (n, producer)
unfolding resend_days resend_daily get_daily_events_from_cold_storage
resend_days-nothing calendar sends window zero day n producer = refl
resend_days-nothing calendar sends window (suc left) day n producer =
    resend_days-nothing calendar sends window left (day + 1) n producer

replay_from_cold_storage-nothing :
    {Store : Type 0} (calendar : Calendar) (sends : ℕ → Sending) (window : Window)
    (cold : Option Store) (producer : Option Pool)
    → replay_from_cold_storage calendar sends window cold producer ≡ (0, producer)
unfolding replay_from_cold_storage
replay_from_cold_storage-nothing calendar sends window none producer = refl
replay_from_cold_storage-nothing calendar sends window (some store) producer =
    resend_days-nothing calendar sends window _ _ 0 producer

total-ask_kafka : (w : Option Window) (r : Replayed) → (ask_kafka w r).total_events ≡ r.total_events
unfolding add_source replay_from_kafka
total-ask_kafka none r = refl
total-ask_kafka (some w) r = omega arith

module _ (json : Json) (redis : Redis json.Bytes) (clickhouse : ClickHouse) (s3 : S3 json.Bytes)
    (elastic : Elastic) (calendar : Calendar) (sends : ℕ → Sending) where
  -- the rows that ClickHouse answers with for a window
  abbrev pub rows_for : Option Window → Option (List clickhouse.Server) → ℕ
  rows_for none warm = 0
  rows_for (some window) none = 0
  rows_for (some window) (some servers) =
      length
        (execute_query json clickhouse select_query (window_params calendar sends window) servers).0

  replay_from_clickhouse-rows :
      (window : Window) (warm : Option (List clickhouse.Server)) (producer : Option Pool)
      → ((replay_from_clickhouse json redis clickhouse s3 elastic calendar sends window warm
            producer).0
          ≡ counted producer (rows_for (some window) warm))
        × ((replay_from_clickhouse json redis clickhouse s3 elastic calendar sends window warm
              producer).2
            ≡ send_empty sends (counted producer (rows_for (some window) warm)) 0 producer)
  unfolding replay_from_clickhouse
  replay_from_clickhouse-rows window none none = (refl, refl)
  replay_from_clickhouse-rows window none (some pool) = (refl, refl)
  replay_from_clickhouse-rows window (some servers) none =
      rw
        (resend_rows-none sends
          (execute_query json clickhouse select_query (window_params calendar sends window)
            servers).0
          0)
        (refl, refl)
  replay_from_clickhouse-rows window (some servers) (some pool) =
      rw
        (count-resend_rows sends
          (execute_query json clickhouse select_query (window_params calendar sends window)
            servers).0
          0 pool)
        (omega arith, refl)

  ask_clickhouse-rows :
      (window : Option Window) (results : Replayed)
      (source : HybridSourceOfTruth json redis clickhouse s3 elastic)
      → let (results', source') =
          ask_clickhouse json redis clickhouse s3 elastic calendar sends window results source in
        let n = counted source.kafka_producer (rows_for window source.storage.warm) in
        (results'.total_events ≡ results.total_events + n)
        × (source'.kafka_producer ≡ send_empty sends n 0 source.kafka_producer)
  unfolding add_source
  ask_clickhouse-rows none results source =
      rw (counted-zero source.kafka_producer) (omega arith, refl)
  ask_clickhouse-rows (some window) results source =
      let rows = replay_from_clickhouse-rows window source.storage.warm source.kafka_producer in
      (ap (λ (n : ℕ). results.total_events + n) rows.0, rows.1)

  ask_cold-nothing :
      (window : Option Window) (results : Replayed)
      (source : HybridSourceOfTruth json redis clickhouse s3 elastic)
      → let (results', source') =
          ask_cold json redis clickhouse s3 elastic calendar sends window results source in
        (results'.total_events ≡ results.total_events)
        × (source'.kafka_producer ≡ source.kafka_producer)
  unfolding add_source
  ask_cold-nothing none results source = (refl, refl)
  ask_cold-nothing (some window) results source =
      rw
        (replay_from_cold_storage-nothing calendar sends window source.storage.cold
          source.kafka_producer)
        (omega arith, refl)

  replay_between-rows :
      (start end_ recent medium : ℕ) (source : HybridSourceOfTruth json redis clickhouse s3 elastic)
      → let (results, source') =
          replay_between json redis clickhouse s3 elastic calendar sends start end_ recent medium
            source in
        let n =
          counted source.kafka_producer
            (rows_for (clickhouse_window start end_ recent medium) source.storage.warm) in
        (results.total_events ≡ n)
        × (source'.kafka_producer ≡ send_empty sends n 0 source.kafka_producer)
  unfolding replay_between
  replay_between-rows start end_ recent medium source =
      let nothing = nothing_replayed json redis clickhouse s3 elastic calendar sends in
      let asked = ask_kafka (kafka_window start end_ recent) nothing in
      let window = clickhouse_window start end_ recent medium in
      let (results, source') =
        ask_clickhouse json redis clickhouse s3 elastic calendar sends window asked source in
      let (zero_events, same) = ask_cold-nothing (cold_window start end_ medium) results source' in
      let (total, sent) = ask_clickhouse-rows window asked source in
      let none_of_kafka = total-ask_kafka (kafka_window start end_ recent) nothing in
      (
        zero_events
            ∙ total
            ∙ ap
                (λ (n : ℕ). n + counted source.kafka_producer (rows_for window source.storage.warm))
                none_of_kafka
            ∙ omega arith,
        same ∙ sent,
      )

  -- A replay between two times, with the cutoffs there, counts exactly the rows that ClickHouse
  -- answers with for the time between the cutoffs, none without a producer, whatever Kafka and the
  -- cold storage hold; and what it sends is that many empty events.
  pub replay_only_clickhouse :
      (current start end_ recent medium : ℕ) (start_date end_date : String)
      (source : HybridSourceOfTruth json redis clickhouse s3 elastic)
      → calendar.fromisoformat start_date ≡ some start
      → calendar.fromisoformat end_date ≡ some end_
      → kafka_cutoff source.policy current ≡ some recent
      → clickhouse_cutoff source.policy current ≡ some medium
      → let n =
          counted source.kafka_producer
            (rows_for (clickhouse_window start end_ recent medium) source.storage.warm) in
        (results : Replayed) × (source' : HybridSourceOfTruth json redis clickhouse s3 elastic)
        × (replay_events_from_source json redis clickhouse s3 elastic calendar sends current
              start_date end_date source
            ≡ ok (results, source'))
        × (results.total_events ≡ n)
        × (source'.kafka_producer ≡ send_empty sends n 0 source.kafka_producer)
  unfolding replay_events_from_source
  replay_only_clickhouse current start end_ recent medium start_date end_date source a b c d =
      let (total, sent) = replay_between-rows start end_ recent medium source in
      let (results, source') =
        replay_between json redis clickhouse s3 elastic calendar sends start end_ recent medium
          source in
      (results, source', rw (a, b, c, d) refl, total, sent)
