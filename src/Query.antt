-- ===== src/Query.antt =====
-- src/streaming_lab/query and src/streaming_lab/realtime: the seam.
pub mod Tests
pub mod Seam
pub mod Sides
pub mod Exact
