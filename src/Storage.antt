-- ===== src/Storage.antt =====
-- The naive mode: src/streaming_lab/naive_mode/multi_tier_storage.py, whose tiers stand on clients of
-- Redis, ClickHouse, S3 and Elasticsearch, and hybrid_source_of_truth.py.
pub mod Services
pub mod Memory
pub mod Hot
pub mod Warm
pub mod Cold
pub mod Search
pub mod Tiers
pub mod Opening
pub mod Opened
pub mod Expiry
pub mod Stored
pub mod Ingested
pub mod Retention
pub mod Durable
pub mod Replay
pub mod Replayed
pub mod Tests
