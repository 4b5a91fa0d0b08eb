-- ===== src/Base/Ports/Pending.antt =====
-- base/src/ports/pending.rs: the messages of the pending port, and the view of a hold that the judge
-- composes from the engine's record and the sequencer's own decisions.
use my_ledger.Common.{ℕ, Bool, false, Option, none, some}
use my_ledger.Common.Int.{pos, min_ℤ, sub_i64}
use my_ledger.Base.Ids.{AccountId, Amount, BudgetGroup, Seq, TxId}
use my_ledger.Base.Transfer.{Transfer}

pub record HoldData : Type 0 where
  pub debit_account : AccountId
  pub credit_account : AccountId
  pub amount : Amount
  pub remaining : Amount
  pub ledger : ℕ
  pub budget : BudgetGroup
  pub budget_members : ℕ
  pub budget_remaining : Amount

pub record Create : Type 0 where
  pub tx_id : TxId
  pub debit_account : AccountId
  pub credit_account : AccountId
  pub amount : Amount
  pub ledger : ℕ
  pub budget : BudgetGroup

pub record Reduce : Type 0 where
  pub pending_ref : TxId
  pub debit_account : AccountId
  pub credit_account : AccountId
  pub amount : Amount
  pub remaining : Amount
  pub ledger : ℕ
  pub budget : BudgetGroup

pub record Remove : Type 0 where
  pub pending_ref : TxId
  pub budget : BudgetGroup
  pub released : Amount

pub data PendingEffect : Type 0 where
  create : Create → PendingEffect
  reduce : Reduce → PendingEffect
  remove : Remove → PendingEffect

pub record PendingLookup : Type 0 where
  pub correlation : ℕ
  pub tx_id : TxId
  pub lane : AccountId
  pub seq : Seq
  pub pending_ref : TxId

pub record PendingFence : Type 0 where
  pub correlation : ℕ
  pub lane : AccountId
  pub seq : Seq

pub record PendingReply : Type 0 where
  pub correlation : ℕ
  pub lane : AccountId
  pub seq : Seq
  pub pending_ref : TxId
  pub found : Option HoldData
  pub applied : ℕ

pub data PendingCommand : Type 0 where
  lookup_command : PendingLookup → PendingCommand
  fence_command : PendingFence → PendingCommand
  -- the decision and the log position of its batch
  apply_command : PendingEffect → ℕ → PendingCommand
  expiry_declined : TxId → PendingCommand

pub data PendingNotice : Type 0 where
  hold_not_stored : TxId → PendingNotice
  hold_expired : Transfer → PendingNotice
  store_failed : PendingNotice

pub record OverlayState : Type 0 where
  pub remaining : Option Amount
  pub taken : Amount
  pub resolved : Bool

-- `OverlayState::default`.
abbrev pub no_overlay : OverlayState
no_overlay = record { remaining = none; taken = pos 0; resolved = false }

pub record HoldView : Type 0 where
  pub debit_account : AccountId
  pub credit_account : AccountId
  pub ledger : ℕ
  pub budget : BudgetGroup
  pub budget_members : ℕ
  pub budget_remaining : Amount
  pub remaining : Amount
  pub resolved : Bool

abbrev pub unwrap_or : Option Amount → Amount → Amount
unwrap_or none d = d
unwrap_or (some a) d = a

-- `HoldView::compose`.
unfoldable pub compose : HoldData → OverlayState → HoldView
compose found overlay = record {
  debit_account = found.debit_account;
  credit_account = found.credit_account;
  ledger = found.ledger;
  budget = found.budget;
  budget_members = found.budget_members;
  budget_remaining = found.budget_remaining;
  remaining =
      sub_i64 (min_ℤ (unwrap_or overlay.remaining found.remaining) found.remaining) overlay.taken;
  resolved = overlay.resolved;
}
