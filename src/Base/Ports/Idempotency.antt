-- ===== src/Base/Ports/Idempotency.antt =====
-- base/src/ports/idempotency.rs: what is asked of the idempotency engine and what it answers.
use my_ledger.Common.{ℕ}
use my_ledger.Base.Ids.{AccountId, Seq, TxId}

pub data IdemVerdict : Type 0 where
  fresh duplicate_same_body duplicate_different_body not_checked : IdemVerdict

pub data IdemAsk : Type 0 where
  check serialize : IdemAsk

pub record IdemRequest : Type 0 where
  pub correlation : ℕ
  pub tx_id : TxId
  pub lane : AccountId
  pub seq : Seq
  pub digest : ℕ
  pub ask : IdemAsk

pub record IdemReply : Type 0 where
  pub correlation : ℕ
  pub lane : AccountId
  pub seq : Seq
  pub verdict : IdemVerdict
