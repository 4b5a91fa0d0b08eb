-- ===== src/Sequencer/State.antt =====
-- sequencer/src/state: what the sequencer keeps, a module to a file.
pub mod Cascade
pub mod Expiry
pub mod Lane
pub mod Pipeline
pub mod Channel
pub mod Outbox
pub mod Safety
pub mod Batcher
