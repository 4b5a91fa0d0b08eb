-- ===== src/Base/Ports.antt =====
-- base/src/ports: the data that crosses the ports, and the account record.
pub mod Pending
pub mod Account
pub mod Raft
pub mod Idempotency
