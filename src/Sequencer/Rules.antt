-- ===== src/Sequencer/Rules.antt =====
-- sequencer/src/rules: what a shared budget and a linked chain ask of a decision.
pub mod Budget
pub mod Linked
