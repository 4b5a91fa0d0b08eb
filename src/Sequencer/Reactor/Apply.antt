-- ===== src/Sequencer/Reactor/Apply.antt =====
-- sequencer/src/reactor/apply.rs: proposals, and applying what consensus answers, in commit order.
pub mod Counts
pub mod Rollback
pub mod Sealed
use my_ledger.Common.{
  ℕ, Bool, true, false, Option, none, some, List, [], ◌∷◌, ◌==◌, if◌then◌else◌, inc_word,
}
use my_ledger.Common.Int.{pos}
use my_ledger.Common.Queue.{Queue}
use my_ledger.Common.Queue
use my_ledger.Base.Ids.{Amount}
use my_ledger.Base.Error.{Result, ok, err, raft_commit_failed}
use my_ledger.Base.Effect.{Effect, pending_effect}
use my_ledger.Base.Protocol.{AckOutcome, rejected}
use my_ledger.Base.Ports.Pending.{HoldData, PendingEffect}
use my_ledger.Base.Ports.Raft.{RaftProposal, RaftCommit, RaftOutcome}
use my_ledger.Account.{MemoryAccounts}
use my_ledger.Account
use my_ledger.Sequencer.State.Batcher.{
  Batcher, InFlightBatch, SlotId, take_proposal, on_proposed, restore, next_committed,
}
use my_ledger.Sequencer.State.Channel.{write}
use my_ledger.Sequencer.State.Pipeline.{record_at}
use my_ledger.Sequencer.Reactor.{Reactor, seal, settle_overlays, give_back_overlays, finish}

abbrev proposed : Reactor → ℕ → Batcher × Option (RaftProposal × List SlotId) → Reactor × Bool
proposed r now (b, none) = (r, false)
proposed r now (b, some (proposal, slots)) =
    let sent = Queue.push r.raft proposal in
    if sent.1
    then (record r { raft = sent.0; batcher = on_proposed b proposal.batch_id slots now }, true)
    else (record r { batcher = restore b proposal.effects slots }, false)

-- A refused proposal waits at the front of the open batch.
unfoldable pub propose : Reactor → ℕ → Reactor × Bool
propose r now = proposed r now (take_proposal r.batcher now)

-- The original size of the hold a partial settle writes again; zero without a record.
abbrev pub hold_amount : Option HoldData → Amount
hold_amount none = pos 0
hold_amount (some found) = found.amount

abbrev pub write_owed : Reactor → Option PendingEffect → ℕ → Reactor
write_owed r none at = r
write_owed r (some effect) at = record r { pending = write r.pending effect at }

abbrev pub count_commit : Reactor → Reactor
count_commit r = record r {
  metrics = record r.metrics { committed_count = inc_word 64 r.metrics.committed_count };
}

-- What follows once the accounts have moved.
pub committed_one : Reactor → Effect → SlotId → ℕ → Reactor
committed_one r effect slot at =
    let settled = settle_overlays r effect in
    let amount = hold_amount (record_at settled.pipeline.slots slot) in
    finish (count_commit (write_owed settled (pending_effect effect amount) at)) slot
      AckOutcome.committed

abbrev pub with_accounts : Reactor → MemoryAccounts → Reactor
with_accounts r accounts = record r { accounts = accounts }

-- True where an effect would not apply: the apply path is sealed and the rest of the batch is left.
pub commit_one : Reactor → Effect → SlotId → ℕ → MemoryAccounts × Result (Unit {0}) → Reactor × Bool
unfolding committed_one
commit_one r effect slot at (accounts, err e) = (seal (with_accounts r accounts), true)
commit_one r effect slot at (accounts, ok _) =
    (committed_one (with_accounts r accounts) effect slot at, false)

-- The effects are paired with the slots as `zip` pairs them.
unfoldable pub commit_batch : Reactor → List Effect → List SlotId → ℕ → Reactor
unfolding commit_one
commit_batch r [] slots at = r
commit_batch r (effect ∷ effects) [] at = r
commit_batch r (effect ∷ effects) (slot ∷ slots) at =
    let one = commit_one r effect slot at (Account.apply r.accounts effect) in
    let rest = commit_batch one.0 effects slots at in if one.1 then one.0 else rest

unfoldable pub roll_back_batch : Reactor → List Effect → List SlotId → Reactor
roll_back_batch r [] slots = r
roll_back_batch r (effect ∷ effects) [] = r
roll_back_batch r (effect ∷ effects) (slot ∷ slots) =
    roll_back_batch (finish (give_back_overlays r effect) slot (rejected raft_commit_failed))
      effects slots

abbrev on_outcome : Reactor → RaftCommit → RaftOutcome → List SlotId → Reactor
on_outcome r commit RaftOutcome.committed slots =
    commit_batch (record r { applied_through = commit.index }) commit.effects slots commit.index
on_outcome r commit RaftOutcome.failed slots = roll_back_batch r commit.effects slots

abbrev pub paired : Reactor → RaftCommit → Option InFlightBatch → Reactor
paired r commit none = seal r
paired r commit (some batch) =
    if batch.batch_id == commit.batch_id
    then on_outcome r commit commit.outcome batch.slots
    else seal r

-- One answer of consensus, against the oldest proposal in flight.
unfoldable pub on_commit : Reactor → RaftCommit → Reactor
on_commit r commit =
    let next = next_committed r.batcher in paired (record r { batcher = next.0 }) commit next.1

-- `apply`, over the answers that consensus has ready: nothing is taken once the path is sealed.
unfoldable pub apply : Reactor → List RaftCommit → Reactor
apply r [] = r
apply r (commit ∷ commits) =
    let rest = apply (on_commit r commit) commits in if r.safety.applies_sealed then r else rest
