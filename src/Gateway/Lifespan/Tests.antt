-- ===== src/Gateway/Lifespan/Tests.antt =====
-- The platform over services in memory: Redis answers, and ClickHouse answers only `two_rows`.
use streaming_lab.Prelude.{◌≡◌, refl, ◌⊎◌, true, false, none, [], ◌∷◌, ltb}
use streaming_lab.Results.{ok, raise, uncaught}
use streaming_lab.Gateway.Producer.{created, stop, start_producers, start_pool}
use streaming_lab.Storage.Services.{done, service_error, ClickHouse}
use streaming_lab.Storage.Memory.{
  plain, memory_redis, down_clickhouse, two_rows, strict_s3, down_elastic,
}
use streaming_lab.Storage.Opening.{
  Connect, split_colon, codes, first_node, open_hot, open_clients, open_warm, open_search,
  initialize,
}
use streaming_lab.Text.{int_of, read_int, scan_digits}
use streaming_lab.Gateway.Lifespan.{
  startup, shutdown, platform_pool, IsUp, IsDown, startup-IsUp_or_IsDown,
}

abbrev connect_to :
    (clickhouse : ClickHouse)
    → (clickhouse.Server)
    → Connect plain.Bytes memory_redis clickhouse strict_s3 down_elastic
connect_to clickhouse server = record {
  redis_cluster = λ host port. done (λ t k. none);
  redis_ping = λ c. (done tt, c);
  clickhouse_client = λ host database. done server;
  s3_client = λ endpoint key secret. done [];
  head_bucket = λ bucket store. (service_error, store);
  create_bucket = λ bucket store. (done tt, store);
  elastic_client = λ hosts. done tt;
  elastic_ping = λ index. (done false, index);
}

first_node_parts : first_node ("localhost:7000" ∷ []) ≡ ok ("localhost", 7000)
unfolding first_node split_colon codes int_of read_int scan_digits
first_node_parts = refl

-- Elasticsearch that is not there does not keep the application from coming up.
comes_up :
    (startup plain memory_redis two_rows strict_s3 down_elastic
      (connect_to two_rows tt)
      (λ i. true)).1
    ≡ platform_pool
unfolding startup start_pool start_producers created initialize open_hot open_warm open_clients
    open_search first_node split_colon codes int_of read_int scan_digits
comes_up = refl

-- Without ClickHouse the clients of Kafka are stopped again.
goes_down :
    startup plain memory_redis down_clickhouse strict_s3 down_elastic
      (connect_to down_clickhouse tt)
      (λ i. true)
    ≡ (raise uncaught, stop platform_pool)
unfolding startup start_pool start_producers created initialize open_hot open_warm open_clients
    first_node split_colon codes int_of read_int scan_digits shutdown
goes_down = refl

startup-IsUp_or_IsDown_example :
    IsUp plain memory_redis two_rows strict_s3 down_elastic (connect_to two_rows tt) (
      startup plain memory_redis two_rows strict_s3 down_elastic
        (connect_to two_rows tt)
        (λ i. ltb i 9))
    ⊎ IsDown plain memory_redis two_rows strict_s3 down_elastic (connect_to two_rows tt) (
        startup plain memory_redis two_rows strict_s3 down_elastic
          (connect_to two_rows tt)
          (λ i. ltb i 9))
startup-IsUp_or_IsDown_example =
    startup-IsUp_or_IsDown plain memory_redis two_rows strict_s3 down_elastic
      (connect_to two_rows tt) (λ i. ltb i 9)
