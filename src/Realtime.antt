-- ===== src/Realtime.antt =====
-- src/streaming_lab/realtime/clickhouse.py: the pipeline's tables, and waiting for ClickHouse to catch
-- up. Its query is part of Query.
pub mod Waiting
pub mod Tables
pub mod Tests
