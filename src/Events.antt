-- ===== src/Events.antt =====
-- src/streaming_lab/events: the order events, their generator and the ground truth.
pub mod Tests
pub mod Schema
pub mod GroundTruth
pub mod Generator
