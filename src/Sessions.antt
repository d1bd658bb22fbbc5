-- ===== src/Sessions.antt =====
-- The session reference of _materials/flink-reference: event_model_original.py and
-- jobs/session_processing_job.py.
pub mod Wire
pub mod Word
pub mod Model
pub mod Aggregate
pub mod Order
pub mod Bounds
pub mod Daily
pub mod Metrics
pub mod Windows
pub mod Ranking
pub mod Tracker
pub mod Journey
pub mod Tests
