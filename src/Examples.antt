-- ===== src/Examples.antt =====
-- The theorems at concrete inputs: small stores, lanes, chains and histories.
mod Data
mod Base
mod Cache
mod Account
mod Orderer
mod Pending
mod State
mod Rules
mod Idempotency
mod Index
mod Raft
mod Reactor
