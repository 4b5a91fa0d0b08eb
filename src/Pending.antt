-- ===== src/Pending.antt =====
-- The crate `pending`, the engine that keeps the holds: so far the half of it that answers inline.
pub mod Address
pub mod Cache
pub mod Index
pub mod Keyed
pub mod Overlay
pub mod Record
pub mod Port
pub mod Store
pub mod Orderer
