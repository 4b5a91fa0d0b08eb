-- ===== src/Base/Effect.antt =====
-- base/src/effect.rs: the replicated effect and the four-row table of what it moves.
use my_ledger.Common.{ℕ, Option, none, some, if◌then◌else◌}
use my_ledger.Common.Int.{pos, ltb_ℤ, neg_i64}
use my_ledger.Base.Ids.{AccountId, AcctHandle, Amount, BudgetGroup, LinkedChainId, TxId}
use my_ledger.Base.Ports.Pending.{PendingEffect, create, reduce, remove}

-- Both sides of a transfer move their two columns by the same delta.
pub record ColumnDelta : Type 0 where
  pub posted : Amount
  pub pending : Amount

pub data EffectKind : Type 0 where
  post hold settle void : EffectKind

pub record Effect : Type 0 where
  pub tx_id : TxId
  pub pending_ref : TxId
  pub debit_account : AccountId
  pub credit_account : AccountId
  pub amount : Amount
  pub remaining_after : Amount
  pub debit : AcctHandle
  pub credit : AcctHandle
  pub chain : LinkedChainId
  pub budget : BudgetGroup
  pub ledger : ℕ
  pub kind : EffectKind

unfoldable pub delta : EffectKind → Amount → ColumnDelta
delta EffectKind.post amount = record { posted = amount; pending = pos 0 }
delta EffectKind.hold amount = record { posted = pos 0; pending = amount }
delta EffectKind.settle amount = record { posted = amount; pending = neg_i64 amount }
delta EffectKind.void amount = record { posted = pos 0; pending = neg_i64 amount }

unfoldable pub columns : Effect → ColumnDelta
unfolding delta
columns effect = delta effect.kind effect.amount

unfoldable pub reserved : EffectKind → Amount → Amount
reserved EffectKind.post amount = amount
reserved EffectKind.hold amount = amount
reserved _ amount = pos 0

unfoldable pub reservation : Effect → Amount
unfolding reserved
reservation effect = reserved effect.kind effect.amount

gained : EffectKind → Effect → Option (AcctHandle × Amount)
gained EffectKind.post effect = some (effect.credit, effect.amount)
gained EffectKind.settle effect = some (effect.credit, effect.amount)
gained EffectKind.void effect = some (effect.debit, effect.amount)
gained EffectKind.hold effect = none

unfoldable pub gain : Effect → Option (AcctHandle × Amount)
unfolding gained
gain effect = gained effect.kind effect

removal : Effect → PendingEffect
removal effect =
    remove (record {
      pending_ref = effect.pending_ref;
      budget = effect.budget;
      released = effect.amount;
    })

reduction : Effect → Amount → PendingEffect
reduction effect hold_amount = reduce (record {
  pending_ref = effect.pending_ref;
  debit_account = effect.debit_account;
  credit_account = effect.credit_account;
  amount = hold_amount;
  remaining = effect.remaining_after;
  ledger = effect.ledger;
  budget = effect.budget;
})

creation : Effect → PendingEffect
creation effect = create (record {
  tx_id = effect.tx_id;
  debit_account = effect.debit_account;
  credit_account = effect.credit_account;
  amount = effect.amount;
  ledger = effect.ledger;
  budget = effect.budget;
})

owed : EffectKind → Effect → Amount → Option PendingEffect
unfolding removal reduction creation
owed EffectKind.post effect hold_amount = none
owed EffectKind.hold effect hold_amount = some (creation effect)
owed EffectKind.settle effect hold_amount =
    some (
      if ltb_ℤ (pos 0) effect.remaining_after then reduction effect hold_amount else removal effect)
owed EffectKind.void effect hold_amount = some (removal effect)

unfoldable pub pending_effect : Effect → Amount → Option PendingEffect
unfolding owed
pending_effect effect hold_amount = owed effect.kind effect hold_amount
