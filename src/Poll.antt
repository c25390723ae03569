-- ===== src/Poll.antt =====
-- The poll loop of pkg/connector and what paces it.
pub mod Time
pub mod Backoff
pub mod Limits
pub mod Wake
pub mod Activity
pub mod Pass
pub mod Sweep
