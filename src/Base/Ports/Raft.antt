-- ===== src/Base/Ports/Raft.antt =====
-- base/src/ports/raft.rs: what is proposed to consensus and what it answers.
use my_ledger.Common.{ℕ, List}
use my_ledger.Base.Effect.{Effect}

pub record RaftProposal : Type 0 where
  pub batch_id : ℕ
  pub effects : List Effect

pub data RaftOutcome : Type 0 where
  committed failed : RaftOutcome

pub record RaftCommit : Type 0 where
  pub batch_id : ℕ
  -- `ApplyIndex`
  pub index : ℕ
  pub outcome : RaftOutcome
  pub effects : List Effect
