-- ===== src/Stubkit.antt =====
-- The crate `stubkit`: what the local components answer with and when.
pub mod Gate
pub mod Latency
