-- ===== src/Gateway/Lifespan.antt =====
-- `lifespan` of events_api_original.py: what the application starts with, and what becomes of the Kafka
-- pool when it does not start. The clients of a storage that is opened in part are not followed: no
-- code closes them.
pub mod Tests
use mathlib.Core.List.{append_assoc, append-nil}
use streaming_lab.Prelude.{
  ℕ, zero, suc, ◌+◌, ◌≡◌, refl, ap, sym, ◌∙◌, ◌⊎◌, inl, inr, Bool, true, false, Option, none, some,
  List, [], ◌∷◌, ◌++◌, length, is_some, Bool-cases, if◌then◌else◌, String,
}
use streaming_lab.Results.{Result, ok, raise, uncaught, Fault, ◌>>=◌}
use streaming_lab.Gateway.Producer.{Pool, created, stop, start_producers, start_pool}
use streaming_lab.Storage.Services.{
  Attempt, done, service_error, other_error, Json, Redis, ClickHouse, query, S3, Elastic,
}
use streaming_lab.Storage.Tiers.{Tiers}
use streaming_lab.Storage.Opened.{Opened, initialize-Opened}
use streaming_lab.Storage.Opening.{
  StorageConfig, Connect, raised, tested, configured, open_hot, open_clients, open_warm, open_cold,
  open_search, initialize,
}

abbrev pub platform_config : StorageConfig
platform_config = record {
  hot_storage = some ("localhost:7000" ∷ "localhost:7001" ∷ "localhost:7002" ∷ []);
  warm_storage = some ("localhost:9000" ∷ "localhost:9001" ∷ [], some "analytics");
  cold_storage = none;
  search_storage = some ("localhost:9200" ∷ []);
}

-- `finally`: what ends the application stops the pool, also when it did not come up.
unfoldable pub shutdown : Pool → Pool
shutdown pool = stop pool

module _ (json : Json) (redis : Redis json.Bytes) (clickhouse : ClickHouse) (s3 : S3 json.Bytes)
    (elastic : Elastic) (connect : Connect json.Bytes redis clickhouse s3 elastic) where
  -- the storage that the application yields with, or what is raised
  abbrev pub opened :
      Result (Tiers json redis clickhouse s3 elastic)
      → Pool
      → Result (Tiers json redis clickhouse s3 elastic) × Pool
  opened (ok tiers) pool = (ok tiers, pool)
  opened (raise x) pool = (raise x, shutdown pool)

  -- `lifespan` up to `yield`, where `starts` tells which Kafka clients come up
  unfoldable pub startup : (ℕ → Bool) → Result (Tiers json redis clickhouse s3 elastic) × Pool
  startup starts =
      let (pool, started) = start_pool starts (created 5 500 50) in
      if started
      then opened (initialize json redis clickhouse s3 elastic connect platform_config) pool
      else (raise uncaught, shutdown pool)

-- `range(i, i + n)`
abbrev pub numbers : ℕ → ℕ → List ℕ
numbers i zero = []
numbers i (suc n) = i ∷ numbers (i + 1) n

-- Starting the Kafka clients gives them all, with the worker, or stops those that came up.
start_producers-cases :
    (starts : ℕ → Bool) (i left : ℕ) (pool : Pool)
    → (start_producers starts i left pool ≡ (
      record pool { producers = pool.producers ++ numbers i left; worker_running = true },
      true,
    ))
      ⊎ ((p : Pool) × (start_producers starts i left pool ≡ (stop p, false)))
unfolding start_producers
start_producers-cases starts i zero pool = inl (rw (append-nil pool.producers) refl)
start_producers-cases starts i (suc left) pool = elim (Bool-cases (starts i)) [
  | inl up ↦
      elim (start_producers-cases starts (i + 1) left
        (record pool { producers = pool.producers ++ i ∷ [] })) [
          | inl all ↦
              inl (rw (up, all, append_assoc pool.producers (i ∷ []) (numbers (i + 1) left)) refl)
          | inr (p, failed) ↦ inr (p, rw (up, failed) refl)
        ]
  | inr down ↦ inr (pool, rw down refl)
]

-- the pool of an application that is up: five clients, the worker, and the circuit closed
abbrev pub platform_pool : Pool
platform_pool = record (created 5 500 50) { producers = numbers 0 5; worker_running = true }

module _ (json : Json) (redis : Redis json.Bytes) (clickhouse : ClickHouse) (s3 : S3 json.Bytes)
    (elastic : Elastic) (connect : Connect json.Bytes redis clickhouse s3 elastic) where
  abbrev pub IsUp : Result (Tiers json redis clickhouse s3 elastic) × Pool → Type 0
  IsUp (answer, pool) =
      (tiers : Tiers json redis clickhouse s3 elastic) × ((answer ≡ ok tiers)
        × (Opened json redis clickhouse s3 elastic connect platform_config tiers
            × (pool ≡ platform_pool)))

  abbrev pub IsDown : Result (Tiers json redis clickhouse s3 elastic) × Pool → Type 0
  IsDown (answer, pool) =
      (x : Fault) × ((answer ≡ raise x) × ((pool.producers ≡ []) × (pool.worker_running ≡ false)))

  opened-cases :
      (answer : Result (Tiers json redis clickhouse s3 elastic))
      → ((x : Fault) × (answer ≡ raise x))
        ⊎ ((tiers : Tiers json redis clickhouse s3 elastic) × ((answer ≡ ok tiers)
              × Opened json redis clickhouse s3 elastic connect platform_config tiers))
      → IsUp (opened json redis clickhouse s3 elastic connect answer platform_pool)
        ⊎ IsDown (opened json redis clickhouse s3 elastic connect answer platform_pool)
  unfolding shutdown stop
  opened-cases answer (inl (x, failed)) = rw failed (inr (x, (refl, (refl, refl))))
  opened-cases answer (inr (tiers, (made, there))) = rw made (inl (tiers, (refl, (there, refl))))

  -- The application comes up with five clients, the worker running and the circuit closed, and with the
  -- tiers of its configuration: Redis, two clients of ClickHouse and Elasticsearch, and no cold tier.
  -- Otherwise the start raises, and the Kafka pool is left without a client and without its worker. Of
  -- the clients of a storage that failed nothing is said.
  pub startup-IsUp_or_IsDown :
      (starts : ℕ → Bool)
      → IsUp (startup json redis clickhouse s3 elastic connect starts)
        ⊎ IsDown (startup json redis clickhouse s3 elastic connect starts)
  unfolding startup start_pool created shutdown
  startup-IsUp_or_IsDown starts = elim (start_producers-cases starts 0 5 (created 5 500 50)) [
    | inl all ↦ rw all (
        opened-cases (initialize json redis clickhouse s3 elastic connect platform_config)
          (initialize-Opened json redis clickhouse s3 elastic connect platform_config))
    | inr (p, failed) ↦ rw failed (unfold stop in inr (uncaught, (refl, (refl, refl))))
  ]
