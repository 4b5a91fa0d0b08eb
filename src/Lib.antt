-- ===== src/Lib.antt =====
-- A model of the ledger's core: the account store, the sequencer that judges and orders transfers, and the
-- overlay through which it reads the holds of the pending engine.
--
-- The parts and how they meet. A client submits transfers (base/src/transfer.rs). The reactor
-- (sequencer/src/reactor.rs) gives each a slot and a place in its debit account's lane, asks the
-- idempotency engine and, for a resolution, the pending engine, judges it when their answers are in,
-- batches the effects for consensus and, when a batch commits, applies them to the accounts
-- (account/src/store.rs) and writes the holds they create or resolve to the pending engine
-- (pending/src/memory.rs). Between the judgment and the commit two overlays keep what is promised: the
-- lane's speculative amount and the hold's reservation (pending/src/overlay.rs).
--
-- Which file models which part:
--   Common, with Lists, Int, Map and Queue: lists and tests over the native numbers, `i64` with wrapping
--     and checked sums, maps as association lists, a bounded queue as its producer sees it.
--   Base: base/src (ids, errors, transfers, effects, the protocol and the records of the ports).
--   Account: account/src/store.rs. `MemoryAccounts` is its record; `open_account`, `resolve`, `apply`,
--     `replay`, `move_columns` and `totals` are its operations.
--   Pending.Overlay: pending/src/overlay.rs, one function for each method of `HoldOverlay`.
--   Pending.Index: pending/src/index.rs, the cuckoo table of record addresses. Word is one slot, Cascade the
--     kicks, Keys the operations by transaction id, Snapshot the stable read; Operations and Lifetime are
--     sequences of them.
--   Pending.Address, Pending.Record: `RecordAddr`, `encode` and `decode` of pending/src/block.rs.
--   Pending.Orderer: pending/src/orderer.rs, one lane's places (Order), a lane among others (Waits, Turns),
--     the replies in the places and the one that leaves (Values, Given), any history (History), what it
--     reports (Report) and the time of the next release (Due).
--   Pending.Cache: pending/src/cache.rs, the cache of blocks over any DurableStore (Pending.Store); Coherent is
--     about its slots, Books about the reads it owes, Told and Reads about both, History about any sequence of
--     reads, Clash about a block that is kept after an object was dropped.
--   Pending.Port: `PendingPort::send` of pending/src/memory.rs.
--   Idempotency: `IdemWorker::drain_requests` of idempotency/src/memory.rs.
--   Raft: the worker of raft/src/echo.rs, with the gate and the latencies of stubkit/src (Stubkit) and the
--     staged producer of base/src/spsc.rs (Base.Staged).
--   Sequencer.Config: sequencer/src/config.rs.
--   Sequencer.State: sequencer/src/state (Lane, Safety, Batcher, Outbox, Expiry, Cascade, Pipeline;
--     Channel is state/pending.rs).
--   Sequencer.Rules: sequencer/src/rules (Budget, Linked).
--   Sequencer.Reactor: sequencer/src/reactor.rs; Judge and Chains are reactor/judge.rs, Apply is
--     reactor/apply.rs, Intake is reactor/intake.rs.
--   Examples: the theorems at concrete inputs.
--
-- Conventions. A method that changes its object takes it and returns it beside its answer. `Result` has the
-- code's error type. Amounts are `i64`s: a plain sum wraps as in a release build, and theorems about sums
-- say where they fit. Counters wrap at their width. An index out of range, on which the code panics, reads
-- a default; `debug_assert`s are hypotheses where a theorem needs them. The clock is an argument. Loops
-- follow a list or a count, as a release of the orderer follows the length of its rotation;
-- the cascade has the code's own cap as fuel, and the power of two that sizes the index, a function of the
-- standard library, its argument.
--
-- Not modelled: the threads and the queues' memory (base/src/spsc.rs), metrics and logs but the two counters
-- that the reactor compares and the two of intake, of requests without a seq and of refusals for lack of a
-- slot; buffer pools and sizes, the delays of the two engines, the worker of the pending
-- engine with its log of blocks, its files and the snapshots it writes, a replicated log, and the programs
-- that drive the service. The store under the block cache is a record of its operations; what the trait
-- `DurableStore` documents of reads is the record of laws `ReadsFrom`.
-- Of the reactor, the loop over a tick's stages, the admission of requests and the loop that judges what a
-- gate frees are left to the reader of the code.
pub mod Common
pub mod Base
pub mod Account
pub mod Sequencer
pub mod Pending
pub mod Idempotency
pub mod Stubkit
pub mod Raft
pub mod Examples
