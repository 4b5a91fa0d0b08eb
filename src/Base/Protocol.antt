-- ===== src/Base/Protocol.antt =====
-- base/src/protocol.rs: what a client submits and what it is answered.
use my_ledger.Common.{ℕ, Bool, true}
use my_ledger.Base.Ids.{AccountId, Seq, TxId}
use my_ledger.Base.Error.{LedgerError}
use my_ledger.Base.Transfer.{Transfer}

pub record Request : Type 0 where
  pub tx : Transfer
  pub submitted_at_nanos : ℕ
  pub end_of_batch : Bool

-- `Request::single`.
abbrev pub single : Transfer → ℕ → Request
single tx now = record { tx = tx; submitted_at_nanos = now; end_of_batch = true }

pub data AckOutcome : Type 0 where
  committed duplicate : AckOutcome
  rejected : LedgerError → AckOutcome

pub record Ack : Type 0 where
  pub tx_id : TxId
  pub lane : AccountId
  pub seq : Seq
  pub outcome : AckOutcome
  pub submitted_at_nanos : ℕ
