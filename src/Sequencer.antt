-- ===== src/Sequencer.antt =====
-- The crate `sequencer`.
pub mod State
pub mod Config
pub mod Rules
pub mod Reactor
