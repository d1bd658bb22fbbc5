-- ===== src/Gateway/Queries.antt =====
-- The handlers of events_api_original.py that read: the metrics, the analytical queries and the health
-- check, with the dependencies that they ask for; and the global pool of async_kafka_producer.py.
use streaming_lab.Prelude.{ℕ, String, Bool, Option, none, some, List, length, ltb, if◌then◌else◌}
use streaming_lab.Results.{Result, ok, raise, uncaught, http_500, ◌>>=◌}
use streaming_lab.Gateway.Value.{Value}
use streaming_lab.Gateway.Producer.{Pool, Health, created, start_pool, get_health_status}
use streaming_lab.Storage.Services.{Json, Redis, ClickHouse, S3, Elastic}
use streaming_lab.Storage.Tiers.{Clock, Tiers, Realtime, get_realtime_metrics, query_analytics}

-- `get_storage` and `get_producer`: an `HTTPException` where there is none
unfoldable pub get_dependency {ℓ} : {A : Type ℓ} → Option A → Result A
get_dependency none = raise http_500
get_dependency (some a) = ok a

module _ (json : Json) (redis : Redis json.Bytes) (clickhouse : ClickHouse) (s3 : S3 json.Bytes)
    (elastic : Elastic) where
  pub record QueryAnswer : Type 0 where
    pub results : List clickhouse.Answer
    pub execution_time : ℕ
    pub row_count : ℕ

  -- The tier does not raise, so nor does the handler; the metrics and the storage after it.
  unfoldable pub realtime_metrics_endpoint :
      Clock
      → String
      → Option (Tiers json redis clickhouse s3 elastic)
      → Result (
          Option (Realtime json redis clickhouse s3 elastic)
          × Tiers json redis clickhouse s3 elastic)
  realtime_metrics_endpoint clock time_window storage = get_dependency storage >>= (λ tiers.
      ok (get_realtime_metrics json redis clickhouse s3 elastic clock time_window tiers))

  abbrev report :
      ℕ
      → List clickhouse.Answer × Tiers json redis clickhouse s3 elastic
      → QueryAnswer × Tiers json redis clickhouse s3 elastic
  report now (rows, tiers) =
      (record { results = rows; execution_time = now; row_count = length rows }, tiers)

  unfoldable pub execute_analytics_query :
      Clock
      → String
      → List (String × Value)
      → Option (Tiers json redis clickhouse s3 elastic)
      → Result (QueryAnswer × Tiers json redis clickhouse s3 elastic)
  execute_analytics_query clock query parameters storage = get_dependency storage >>= (λ tiers.
      ok (
        report clock.now (query_analytics json redis clickhouse s3 elastic query parameters tiers)))

pub record HealthReport : Type 0 where
  pub kafka_producer : String
  pub circuit_breaker : String
  pub report_active_producers : ℕ
  pub report_queue_size : ℕ
  pub report_failure_count : ℕ

abbrev health_of : Health → HealthReport
health_of h = record {
  kafka_producer = if ltb 0 h.active_producers then "up" else "down";
  circuit_breaker = if h.health_circuit_open then "open" else "closed";
  report_active_producers = h.active_producers;
  report_queue_size = h.queue_size;
  report_failure_count = h.health_failure_count;
}

unfoldable pub health_check : Option Pool → Result HealthReport
health_check producer =
    get_dependency producer >>= (λ pool. ok (health_of (get_health_status pool)))

-- `get_kafka_producer_pool`: the global pool is set before it is started, and stays set when that
-- raises.
abbrev yielded : Pool × Bool → Result Pool × Option Pool
yielded (pool, up) = (if up then ok pool else raise uncaught, some pool)

unfoldable pub get_kafka_producer_pool : (ℕ → Bool) → Option Pool → Result Pool × Option Pool
get_kafka_producer_pool starts (some pool) = (ok pool, some pool)
get_kafka_producer_pool starts none = yielded (start_pool starts (created 5 1000 100))

unfoldable pub cleanup_producer_pool : Option Pool → Option Pool
cleanup_producer_pool producer_pool = none
