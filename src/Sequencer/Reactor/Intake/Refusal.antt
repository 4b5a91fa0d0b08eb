-- ===== src/Sequencer/Reactor/Intake/Refusal.antt =====
-- What a refusal at intake leaves behind.
use my_ledger.Common.{
  ◌≡◌, ◌⊎◌, inc_word, refl, ◌∙◌, arith, Bool, true, false, not, ◌&&◌, [], if◌then◌else◌,
}
use my_ledger.Base.Ids.{AcctHandle}
use my_ledger.Base.Error.{LedgerError, overloaded}
use my_ledger.Sequencer.State.Batcher.{SlotId}
use my_ledger.Sequencer.State.Channel.{PendingChannel, blocks_lookups}
use my_ledger.Sequencer.State.Lane.{get}
use my_ledger.Sequencer.State.Pipeline.{WorkItem, DepFlags}
use my_ledger.Sequencer.Reactor.{Reactor, item_of}
use my_ledger.Sequencer.Reactor.Intake.{dispatch, dispatch_pending, send_idem}

-- What a refused request may leave: a lane table that reaches further, and a refusal counted that was for
-- lack of a slot.
pub IsRefused : Reactor → LedgerError → Reactor → Type 0
IsRefused r e after =
    (after ≡ record r { lanes = after.lanes; metrics = after.metrics })
    × ((handle : AcctHandle) → get after.lanes handle ≡ get r.lanes handle)
    × ((after.metrics ≡ r.metrics)
        ⊎ ((e ≡ overloaded)
            × (r.pipeline.slots.free ≡ [])
            × (after.metrics
                ≡ record r.metrics { slot_exhaustion = inc_word 64 r.metrics.slot_exhaustion })))

send_idem_keeps :
    (r : Reactor) (slot : SlotId) (item : WorkItem) → (send_idem r slot item).0.pending ≡ r.pending
unfolding send_idem
send_idem_keeps r slot item = refl

dispatch_pending_blocked :
    (r : Reactor) (slot : SlotId) (item : WorkItem) (sent : DepFlags)
    → blocks_lookups r.pending ≡ true
    → (dispatch_pending r slot item sent).0.pending ≡ r.pending
unfolding dispatch_pending
dispatch_pending_blocked r slot item sent blocked = rw blocked (ground arith)

-- While a committed decision waits for the engine's queue, a dispatch sends the engine nothing, neither
-- a lookup nor a fence, and takes no pin: no lookup overtakes a decision it must be answered after.
pub dispatch_blocked :
    (r : Reactor) (slot : SlotId)
    → blocks_lookups r.pending ≡ true
    → (dispatch r slot).0.pending ≡ r.pending
unfolding dispatch
dispatch_blocked r slot blocked =
    let item = item_of r slot in
    let asked = (send_idem r slot item).0 in
    let same = send_idem_keeps r slot item in
    let here = dispatch_pending_blocked r slot item item.sent blocked in
    let after =
      dispatch_pending_blocked asked slot item (record item.sent { idem = true })
        (rw same blocked) in
    ends _ _ _ _ (not (item.deps.idem && not item.sent.idem)) (send_idem r slot item).1 here
      (after ∙ same) same
  where
    ends :
        (p q s : Reactor × Bool) (ch : PendingChannel) (b c : Bool)
        → p.0.pending ≡ ch
        → q.0.pending ≡ ch
        → s.0.pending ≡ ch
        → (if b then p else if c then q else s).0.pending ≡ ch
    ends p q s ch true c h k l = h
    ends p q s ch false true h k l = k
    ends p q s ch false false h k l = l
