-- ===== src/Landing.antt =====
-- src/streaming_lab/lake/landing_job.py: the landing job.
pub mod State
pub mod Job
pub mod Offsets
pub mod Safety
pub mod Disorder
pub mod Delivery
pub mod Kept
pub mod Commit
pub mod Polls
pub mod ExactlyOnce
pub mod Refines
pub mod Drain
pub mod Tests
