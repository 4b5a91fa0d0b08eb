-- ===== src/Sequencer/Reactor/Chains/Keeps.antt =====
-- What judging a leg and ending a chain leave alone, and whose effect a judgment makes.
use my_ledger.Common.{◌≡◌, refl, ◌∙◌, arith, Option, List, [], ◌∷◌, option_or}
use my_ledger.Base.Error.{LedgerError, Result, ok, err, ok_or, ◌>>=◌, ◌>>◌, pending_ref_not_found}
use my_ledger.Base.Transfer.{TransferKind}
use my_ledger.Base.Ports.Pending.{HoldView}
use my_ledger.Account.{MemoryAccounts}
use my_ledger.Base.Effect.{Effect, EffectKind}
use my_ledger.Base.Protocol.{AckOutcome}
use my_ledger.Sequencer.Rules.Linked.{LinkedScratch}
use my_ledger.Sequencer.State.Batcher.{SlotId}
use my_ledger.Sequencer.State.Pipeline.{WorkItem}
use my_ledger.Sequencer.Reactor.{
  Reactor, take_overlays, give_back_overlays, finish, reserve_hold, compensate_hold, on_seq_gap,
  quarantine_lane, trip_fail_stop,
}
use my_ledger.Base.Ids.{Amount, AccountId, AcctHandle}
use my_ledger.Sequencer.Reactor.Judge.{
  decide, accept, rejection, build_effect, effect_of, extra_of, scratch_hold, hold_view,
  resolve_hold, resolving_effect, direct_effect,
}
use my_ledger.Sequencer.State.Lane.{LaneTable}
use my_ledger.Sequencer.Reactor.Judge.Resolution.{resolve_hold-IsResolution}
use my_ledger.Sequencer.Reactor.Chains.{give_back_all, reject_all, free_gated, outcome}

pub take_keeps : (r : Reactor) (effect : Effect) → (take_overlays r effect).batcher ≡ r.batcher
unfolding take_overlays reserve_hold
take_keeps r effect = ground arith

give_back_keeps :
    (r : Reactor) (effect : Effect) → (give_back_overlays r effect).batcher ≡ r.batcher
unfolding give_back_overlays compensate_hold
give_back_keeps r effect = ground arith

finish_keeps :
    (r : Reactor) (slot : SlotId) (outcome : AckOutcome)
    → (finish r slot outcome).batcher ≡ r.batcher
unfolding finish
finish_keeps r slot outcome = ground arith

gap_keeps :
    (r : Reactor) (account : AccountId) (handle : AcctHandle)
    → (on_seq_gap r account handle).batcher ≡ r.batcher
unfolding on_seq_gap quarantine_lane trip_fail_stop
gap_keeps r account handle = ground arith

accept_keeps : (r : Reactor) (item : WorkItem) → (accept r item).0.batcher ≡ r.batcher
unfolding accept
accept_keeps r item = ground (arith, gap_keeps r item.lane item.debit)

pub decide_keeps :
    (r : Reactor) (slot : SlotId) (item : WorkItem) (chain : Option LinkedScratch)
    → (decide r slot item chain).0.batcher ≡ r.batcher
unfolding decide
decide_keeps r slot item chain = accept_keeps r item

pub give_back_all_keeps :
    (r : Reactor) (effects : List Effect) → (give_back_all r effects).batcher ≡ r.batcher
unfolding give_back_all
give_back_all_keeps r [] = refl
give_back_all_keeps r (effect ∷ effects) =
    give_back_all_keeps (give_back_overlays r effect) effects ∙ give_back_keeps r effect

pub reject_all_keeps :
    (r : Reactor) (slots : List SlotId) (e : LedgerError)
    → (reject_all r slots e).batcher ≡ r.batcher
unfolding reject_all
reject_all_keeps r [] e = refl
reject_all_keeps r (slot ∷ slots) e =
    reject_all_keeps (finish r slot (rejection e)) slots e ∙ finish_keeps r slot (rejection e)

pub free_gated_keeps :
    (r : Reactor) (slots : List SlotId) → (free_gated r slots).batcher ≡ r.batcher
unfolding free_gated
free_gated_keeps r [] = refl
free_gated_keeps r (slot ∷ slots) = ground (arith, free_gated_keeps r slots)

pub take_pipeline : (r : Reactor) (effect : Effect) → (take_overlays r effect).pipeline ≡ r.pipeline
unfolding take_overlays reserve_hold
take_pipeline r effect = ground arith

pub decide_pipeline :
    (r : Reactor) (slot : SlotId) (item : WorkItem) (chain : Option LinkedScratch)
    → (decide r slot item chain).0.pipeline ≡ r.pipeline
unfolding decide accept on_seq_gap quarantine_lane trip_fail_stop
decide_pipeline r slot item chain = ground arith

resolving_tx_id :
    (accounts : MemoryAccounts) (item : WorkItem) (kind : EffectKind) (hold : Result HoldView)
    (effect : Effect)
    → (hold >>= resolve_hold accounts item kind) ≡ ok effect
    → effect.tx_id ≡ item.tx.id
resolving_tx_id accounts item kind (ok hold) effect h =
    (resolve_hold-IsResolution accounts item kind hold effect h).same_id
resolving_tx_id accounts item kind (err e) effect h = absurd (ground arith)

direct_tx_id :
    (accounts : MemoryAccounts) (lanes : LaneTable) (item : WorkItem) (kind : EffectKind)
    (extra : Amount) (effect : Effect)
    → direct_effect accounts lanes item kind extra ≡ ok effect
    → effect.tx_id ≡ item.tx.id
unfolding direct_effect
direct_tx_id accounts lanes item kind extra effect h = ground arith

abbrev resolved_hold : Reactor → SlotId → WorkItem → Option LinkedScratch → Result HoldView
resolved_hold r slot item chain =
    ok_or
      (option_or (scratch_hold chain item.tx.pending_ref) (hold_view r slot item.tx.pending_ref))
      (pending_ref_not_found item.tx.pending_ref)

effect_of-tx_id :
    (kind : TransferKind) (r : Reactor) (slot : SlotId) (item : WorkItem)
    (chain : Option LinkedScratch) (effect : Effect)
    → effect_of kind r slot item chain ≡ ok effect
    → effect.tx_id ≡ item.tx.id
unfolding resolving_effect
effect_of-tx_id TransferKind.single_phase r slot item chain effect h =
    direct_tx_id r.accounts r.lanes item EffectKind.post (extra_of chain item.debit) effect h
effect_of-tx_id TransferKind.hold r slot item chain effect h =
    direct_tx_id r.accounts r.lanes item EffectKind.hold (extra_of chain item.debit) effect h
effect_of-tx_id TransferKind.settle r slot item chain effect h =
    resolving_tx_id r.accounts item EffectKind.settle (resolved_hold r slot item chain) effect h
effect_of-tx_id TransferKind.void_client r slot item chain effect h =
    resolving_tx_id r.accounts item EffectKind.void (resolved_hold r slot item chain) effect h
effect_of-tx_id TransferKind.void_expiry r slot item chain effect h =
    resolving_tx_id r.accounts item EffectKind.void (resolved_hold r slot item chain) effect h

pub decide-tx_id :
    (r : Reactor) (slot : SlotId) (item : WorkItem) (chain : Option LinkedScratch) (effect : Effect)
    → (decide r slot item chain).1 ≡ ok effect
    → effect.tx_id ≡ item.tx.id
unfolding decide build_effect
decide-tx_id r slot item chain effect h =
    let a = accept r item in
    effect_of-tx_id item.kind a.0 slot item chain effect
      (passed a.1 (build_effect a.0 slot item chain) effect h)
  where
    passed :
        (first : Result (Unit {0})) (second : Result Effect) (effect : Effect)
        → (first >> second) ≡ ok effect
        → second ≡ ok effect
    passed (ok _) second effect h = h
    passed (err e) second effect h = absurd (ground arith)
