-- ===== src/Gateway.antt =====
-- The gateway: the producer pool of gateway/async_kafka_producer.py, and the ingestion, the reads and
-- the start of gateway/events_api_original.py.
pub mod Value
pub mod Producer
pub mod Breaker
pub mod RoundRobin
pub mod Worker
pub mod Api
pub mod Ingest
pub mod Queries
pub mod Lifespan
pub mod Tests
