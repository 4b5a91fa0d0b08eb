-- ===== src/Sequencer/Reactor/Judge.antt =====
-- sequencer/src/reactor/judge.rs: what is decided about one request.
pub mod Books
pub mod Funds
pub mod Overdraft
pub mod Resolution
use my_ledger.Common.{
  ℕ, inc_word, Bool, true, false, not, ◌&&◌, ◌||◌, Option, none, some, ltb, leb, ◌==◌,
  if◌then◌else◌, option_or,
}
use my_ledger.Common.Int.{pos, add_i64, sub_i64, leb_ℤ, ltb_ℤ, eqb_ℤ}
use my_ledger.Base.Ids.{AcctHandle, Amount, TxId, absent, unordered, is_absent}
use my_ledger.Base.Error.{
  LedgerError, Result, ok, err, ◌>>=◌, ◌>>◌, ok_or, refuse_if, fail_stop, account_quarantined,
  duplicate_request, duplicate_different_body, insufficient_balance, pending_ref_not_found,
  pending_ref_already_resolved, pending_ref_mismatch, ledger_mismatch, invalid_amount,
  settle_exceeds_remaining, unknown_account,
}
use my_ledger.Base.Transfer.{TransferKind, single_phase, void_client, void_expiry, budget}
use my_ledger.Base.Effect.{Effect, EffectKind}
use my_ledger.Base.Protocol.{AckOutcome, duplicate, rejected}
use my_ledger.Base.Ports.Account.{AccountRecord, available, is_constrained}
use my_ledger.Base.Ports.Idempotency.{IdemVerdict, duplicate_same_body}
use my_ledger.Base.Ports.Idempotency
use my_ledger.Base.Ports.Pending.{HoldData, HoldView, PendingReply, compose}
use my_ledger.Account.{MemoryAccounts, resolve, record_of}
use my_ledger.Pending.Overlay.{HoldOverlay, overlay, admit_lookup}
use my_ledger.Sequencer.Rules.Budget.{allow_resolution}
use my_ledger.Sequencer.Rules.Linked.{LinkedScratch, hold_of, available_for}
use my_ledger.Sequencer.State.Batcher.{SlotId, push}
use my_ledger.Sequencer.State.Channel.{on_overlay}
use my_ledger.Sequencer.State.Lane.{LaneTable, LaneState, get, update, accept_seq}
use my_ledger.Sequencer.State.Pipeline.{WorkItem, record_at}
use my_ledger.Sequencer.Reactor.{Reactor, on_seq_gap, take_overlays, finish, item_of, overlay_of}

abbrev verdict_of : Option IdemVerdict → Result (Unit {0})
verdict_of (some IdemVerdict.duplicate_same_body) = err duplicate_request
verdict_of (some IdemVerdict.duplicate_different_body) = err duplicate_different_body
verdict_of _ = ok tt

abbrev accepted : Reactor → WorkItem → LaneState × Result (Unit {0}) → Reactor × Result (Unit {0})
accepted r item (lane, ok _) =
    (record r { lanes = update r.lanes item.debit (λ _. lane) }, verdict_of item.verdict)
accepted r item (lane, err e) = (on_seq_gap r item.lane item.debit, err e)

abbrev accept_order : Reactor → WorkItem → Reactor × Result (Unit {0})
accept_order r item =
    if item.seq == unordered
    then (r, verdict_of item.verdict)
    else accepted r item (accept_seq (get r.lanes item.debit) item.seq)

-- Checks that apply to every request before its effect is built.
unfoldable pub accept : Reactor → WorkItem → Reactor × Result (Unit {0})
accept r item =
    if r.safety.fail_stop
    then (r, err fail_stop)
    else if (get r.lanes item.debit).quarantined
    then (r, err (account_quarantined item.lane))
    else accept_order r item

-- A duplicate is a fact, not a failure.
unfoldable pub rejection : LedgerError → AckOutcome
rejection duplicate_request = duplicate
rejection other = rejected other

-- What a request on an account may spend: committed columns, the lane's overlay, the chain's scratch.
unfoldable pub spendable : MemoryAccounts → LaneTable → AcctHandle → Amount → Amount
spendable accounts lanes debit extra =
    add_i64 (add_i64 (available (record_of accounts debit)) (get lanes debit).speculative) extra

abbrev pub direct : WorkItem → EffectKind → Effect
direct item kind = record {
  tx_id = item.tx.id;
  pending_ref = absent;
  debit_account = item.tx.debit_account;
  credit_account = item.tx.credit_account;
  amount = item.tx.amount;
  remaining_after = pos 0;
  debit = item.debit;
  credit = item.credit;
  chain = item.chain;
  budget = budget item.tx;
  ledger = item.tx.ledger;
  kind = kind;
}

unfoldable pub direct_effect :
    MemoryAccounts → LaneTable → WorkItem → EffectKind → Amount → Result Effect
unfolding spendable
direct_effect accounts lanes item kind extra =
    if is_constrained (record_of accounts item.debit)
      && ltb_ℤ (spendable accounts lanes item.debit extra) item.tx.amount
    then err (insufficient_balance (spendable accounts lanes item.debit extra) item.tx.amount)
    else ok (direct item kind)

abbrev view_with : Option HoldData → HoldOverlay → TxId → Option HoldView
view_with none o hold = none
view_with (some found) o hold = some (compose found (overlay o hold))

-- `hold_view`: the record the engine answered, and what has been decided about the hold since.
unfoldable pub hold_view : Reactor → SlotId → TxId → Option HoldView
hold_view r slot hold = view_with (record_at r.pipeline.slots slot) (overlay_of r) hold

abbrev pub amount_of : EffectKind → HoldView → Amount → Amount
amount_of EffectKind.void hold asked = hold.remaining
amount_of _ hold asked = asked

abbrev pub resolution : WorkItem → EffectKind → HoldView → Amount → AcctHandle → AcctHandle → Effect
resolution item kind hold amount debit credit = record {
  tx_id = item.tx.id;
  pending_ref = item.tx.pending_ref;
  debit_account = hold.debit_account;
  credit_account = hold.credit_account;
  amount = amount;
  remaining_after = sub_i64 hold.remaining amount;
  debit = debit;
  credit = credit;
  chain = item.chain;
  budget = hold.budget;
  ledger = hold.ledger;
  kind = kind;
}

-- The checks on the hold a resolution is about, and its effect.
unfoldable pub resolve_hold : MemoryAccounts → WorkItem → EffectKind → HoldView → Result Effect
resolve_hold accounts item kind hold = do
  refuse_if hold.resolved pending_ref_already_resolved
  refuse_if
      (not (hold.debit_account == item.tx.debit_account)
        || not (hold.credit_account == item.tx.credit_account))
      pending_ref_mismatch
  refuse_if (not (hold.ledger == item.tx.ledger)) ledger_mismatch
  refuse_if (leb_ℤ (amount_of kind hold item.tx.amount) (pos 0)) invalid_amount
  refuse_if (ltb_ℤ hold.remaining (amount_of kind hold item.tx.amount))
      (settle_exceeds_remaining hold.remaining (amount_of kind hold item.tx.amount))
  allow_resolution hold (amount_of kind hold item.tx.amount) (not (is_absent item.chain))
  debit ← ok_or (resolve accounts hold.debit_account) (unknown_account hold.debit_account)
  credit ← ok_or (resolve accounts hold.credit_account) (unknown_account hold.credit_account)
  ok (resolution item kind hold (amount_of kind hold item.tx.amount) debit credit)

abbrev pub scratch_hold : Option LinkedScratch → TxId → Option HoldView
scratch_hold none hold = none
scratch_hold (some scratch) hold = hold_of scratch hold

-- A hold that the chain being judged created comes before the engine's.
unfoldable pub resolving_effect :
    Reactor → SlotId → WorkItem → EffectKind → Option LinkedScratch → Result Effect
resolving_effect r slot item kind chain = do
  hold ←
      ok_or
        (option_or (scratch_hold chain item.tx.pending_ref) (hold_view r slot item.tx.pending_ref))
        (pending_ref_not_found item.tx.pending_ref)
  resolve_hold r.accounts item kind hold

abbrev pub extra_of : Option LinkedScratch → AcctHandle → Amount
extra_of none debit = pos 0
extra_of (some scratch) debit = available_for scratch debit

abbrev pub effect_of :
    TransferKind → Reactor → SlotId → WorkItem → Option LinkedScratch → Result Effect
effect_of TransferKind.single_phase r slot item chain =
    direct_effect r.accounts r.lanes item EffectKind.post (extra_of chain item.debit)
effect_of TransferKind.hold r slot item chain =
    direct_effect r.accounts r.lanes item EffectKind.hold (extra_of chain item.debit)
effect_of TransferKind.settle r slot item chain =
    resolving_effect r slot item EffectKind.settle chain
effect_of TransferKind.void_client r slot item chain =
    resolving_effect r slot item EffectKind.void chain
effect_of TransferKind.void_expiry r slot item chain =
    resolving_effect r slot item EffectKind.void chain

unfoldable pub build_effect : Reactor → SlotId → WorkItem → Option LinkedScratch → Result Effect
build_effect r slot item chain = effect_of item.kind r slot item chain

-- Accepted first, and only then built, against the state that accepting left.
unfoldable pub decide : Reactor → SlotId → WorkItem → Option LinkedScratch → Reactor × Result Effect
decide r slot item chain = let a = accept r item in (a.0, a.1 >> build_effect a.0 slot item chain)

abbrev judged : Reactor × Result Effect → SlotId → ℕ → Reactor
judged (r, err e) slot now = finish r slot (rejection e)
judged (r, ok effect) slot now =
    let taken = take_overlays r effect in
    record taken {
      batcher = push taken.batcher effect slot now;
      metrics = record taken.metrics { judged = inc_word 64 taken.metrics.judged };
    }

unfoldable pub judge : Reactor → SlotId → ℕ → Reactor
judge r slot now = judged (decide r slot (item_of r slot) none) slot now
