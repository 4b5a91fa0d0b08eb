-- ===== src/Base.antt =====
-- The crate `base`: identifiers, errors, transfers, effects and the records of the ports.
pub mod Ids
pub mod Error
pub mod Transfer
pub mod Effect
pub mod Ports
pub mod Prng
pub mod Staged
pub mod Protocol
