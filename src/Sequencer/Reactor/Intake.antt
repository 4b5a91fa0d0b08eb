-- ===== src/Sequencer/Reactor/Intake.antt =====
-- sequencer/src/reactor/intake.rs: a request gets its slot and its place in its lane, and is sent to the
-- components it depends on.
pub mod Refusal
use my_ledger.Common.{
  ℕ, Bool, true, false, not, ◌&&◌, ◌||◌, Option, none, some, List, [], ◌∷◌, ◌==◌, if◌then◌else◌,
  is_some, inc_word,
}
use my_ledger.Common.Queue
use my_ledger.Base.Ids.{
  AccountId, AcctHandle, LinkedChainId, Seq, absent, unordered, is_ledger_origin,
}
use my_ledger.Base.Error.{
  LedgerError, Result, ok, err, ◌>>=◌, ◌>>◌, ok_or, refuse_if, fail_stop, unknown_account,
  ledger_mismatch, account_quarantined, overloaded, reserved_transaction_id,
}
use my_ledger.Base.Transfer.{
  Transfer, TransferKind, validate, needs_pending_lookup, is_client, digest, lane,
}
use my_ledger.Base.Transfer.Flags
use my_ledger.Base.Protocol.{Request}
use my_ledger.Base.Ports.Account.{is_constrained}
use my_ledger.Base.Ports.Idempotency.{IdemAsk, IdemRequest}
use my_ledger.Base.Ports.Pending.{PendingLookup, PendingFence}
use my_ledger.Account.{resolve, record_of}
use my_ledger.Pending.Overlay
use my_ledger.Sequencer.Rules.Linked.{gate_for, wait_behind}
use my_ledger.Sequencer.State.Batcher.{SlotId}
use my_ledger.Sequencer.State.Batcher
use my_ledger.Sequencer.State.Outbox
use my_ledger.Sequencer.State.Channel.{lookup, fence, blocks_lookups, is_saturated, on_overlay}
use my_ledger.Sequencer.State.Lane.{
  LaneState, get, update, grow, entered, issue_seq, awaits_pending_reply, has_reply_capacity,
  expect_pending_reply,
}
use my_ledger.Sequencer.State.Pipeline.{
  WorkItem, DepFlags, no_deps, item_at, set_item, alloc, has_deferred, defer, expect_applies,
  keeps_lane_place, clear_dep, pending_dep,
}
use my_ledger.Sequencer.Reactor.{Reactor, item_of, overlay_of}

-- Which backlog stops intake.
pub data PauseCause : Type 0 where
  not_paused component_queue pending_engine consensus acks_unread : PauseCause

-- First match wins.
unfoldable pub pause_cause : Reactor → PauseCause
pause_cause r =
    if has_deferred r.pipeline
    then component_queue
    else if is_saturated r.pending
    then pending_engine
    else if Batcher.is_saturated r.batcher
    then consensus
    else if Outbox.is_saturated r.outbox
    then acks_unread
    else not_paused

pub data PendingStep : Type 0 where
  look_up take_place inline : PendingStep

-- `PendingStep::of`.
unfoldable pub step_of : Bool → Bool → PendingStep
step_of true waiting = look_up
step_of false true = take_place
step_of false false = inline

-- A request whose checks have passed.
pub record Admitted : Type 0 where
  pub tx_kind : TransferKind
  pub debit : AcctHandle
  pub credit : AcctHandle

unfoldable pub is_ordered : Reactor → AcctHandle → Bool
is_ordered r debit = is_constrained (record_of r.accounts debit)

unfoldable pub needs_reply : Reactor → TransferKind → AcctHandle → Bool
unfolding is_ordered
needs_reply r tx_kind debit =
    needs_pending_lookup tx_kind || (is_ordered r debit && awaits_pending_reply (get r.lanes debit))

-- The first checks of `prepare`, which change nothing.
unfoldable pub known_accounts : Reactor → Transfer → Result Admitted
known_accounts r tx = do
  refuse_if r.safety.fail_stop fail_stop
  tx_kind ← validate tx
  debit ← ok_or (resolve r.accounts tx.debit_account) (unknown_account tx.debit_account)
  credit ← ok_or (resolve r.accounts tx.credit_account) (unknown_account tx.credit_account)
  refuse_if
      (not ((record_of r.accounts debit).ledger == tx.ledger)
        || not ((record_of r.accounts credit).ledger == tx.ledger))
      ledger_mismatch
  ok (record { tx_kind = tx_kind; debit = debit; credit = credit })

-- The checks on the debit's lane.
unfoldable pub lane_admits : Reactor → Transfer → Admitted → Result Admitted
unfolding is_ordered needs_reply
lane_admits r tx a = do
  refuse_if (get r.lanes a.debit).quarantined (account_quarantined tx.debit_account)
  refuse_if
      (is_ordered r a.debit
        && needs_reply r a.tx_kind a.debit
        && not (has_reply_capacity (get r.lanes a.debit)))
      overloaded
  ok a

-- `get_mut`, through which the lane is read, makes the table reach the handle.
abbrev pub with_lane : Reactor → AcctHandle → Reactor
with_lane r handle = record r { lanes = grow r.lanes handle }

abbrev pub on_lane : Reactor → Transfer → Result Admitted → Reactor × Result Admitted
on_lane r tx (err e) = (r, err e)
on_lane r tx (ok a) = (with_lane r a.debit, lane_admits (with_lane r a.debit) tx a)

-- All that `prepare` checks before it takes a slot.
unfoldable pub admissible : Reactor → Transfer → Reactor × Result Admitted
admissible r tx = on_lane r tx (known_accounts r tx)

abbrev other_gate : Option LinkedChainId → Option LinkedChainId → Option LinkedChainId
other_gate none chain = none
other_gate (some gate) none = some gate
other_gate (some gate) (some own) = if gate == own then none else some gate

abbrev chain_id : Option LinkedChainId → LinkedChainId
chain_id none = absent
chain_id (some id) = id

-- A place in the lane's order, or none.
abbrev take_seq : Bool → LaneState → LaneState × Seq
take_seq true lane = issue_seq lane
take_seq false lane = (lane, unordered)

abbrev wait : Reactor → Option LinkedChainId → SlotId → Reactor
wait r none slot = r
wait r (some gate) slot = record r { linked = wait_behind r.linked gate slot }

pub item_for :
    Reactor → Request → Option LinkedChainId → Admitted → Option LinkedChainId → Seq → WorkItem
unfolding needs_reply
item_for r request chain a gate seq = record {
  tx = request.tx;
  digest = digest request.tx;
  seq = seq;
  lane = lane request.tx;
  kind = a.tx_kind;
  debit = a.debit;
  credit = a.credit;
  chain = chain_id chain;
  deps = record {
    idem = true;
    pending = needs_reply r a.tx_kind a.debit;
    linked_chain = is_some gate;
  };
  sent = no_deps;
  verdict = none;
  submitted_at_nanos = request.submitted_at_nanos;
}

pub placed : Reactor → Request → Option LinkedChainId → Admitted → SlotId → Reactor
unfolding is_ordered item_for
placed r request chain a slot =
    let gate = other_gate (gate_for r.linked a.debit) chain in
    let seated = take_seq (is_ordered r a.debit) (entered (get r.lanes a.debit)) in
    let item = item_for r request chain a gate seated.1 in
    wait
      (record r {
        lanes = update r.lanes a.debit (λ _. seated.0);
        pipeline = record r.pipeline { slots = set_item r.pipeline.slots slot item };
        metrics =
            if is_ordered r a.debit
            then r.metrics
            else record r.metrics { order_exempt = inc_word 64 r.metrics.order_exempt };
      })
      gate slot

abbrev seat :
    Reactor → Request → Option LinkedChainId → Admitted → Option SlotId → Reactor × Result SlotId
seat r request chain a none = (
  record r {
    metrics = record r.metrics { slot_exhaustion = inc_word 64 r.metrics.slot_exhaustion };
  },
  err overloaded,
)
seat r request chain a (some slot) = (placed r request chain a slot, ok slot)

abbrev prepared :
    Reactor → Request → Option LinkedChainId → Result Admitted → Reactor × Result SlotId
prepared r request chain (err e) = (r, err e)
prepared r request chain (ok a) =
    let taken = alloc r.pipeline.slots in
    seat (record r { pipeline = record r.pipeline { slots = taken.0 } }) request chain a taken.1

unfoldable pub prepare : Reactor → Request → Option LinkedChainId → Reactor × Result SlotId
prepare r request chain =
    let checked = admissible r request.tx in prepared checked.0 request chain checked.1

abbrev ask_of : TransferKind → IdemAsk
ask_of k = if is_client k then IdemAsk.check else IdemAsk.serialize

-- The lane's order is asked of the idempotency engine, also for what it may not record.
unfoldable pub send_idem : Reactor → SlotId → WorkItem → Reactor × Bool
send_idem r slot item =
    let sent = Queue.push r.idem (record {
      correlation = slot;
      tx_id = item.tx.id;
      lane = item.lane;
      seq = item.seq;
      digest = item.digest;
      ask = ask_of item.kind;
    }) in
    (record r { idem = sent.0 }, sent.1)

abbrev with_item : Reactor → SlotId → WorkItem → Reactor
with_item r slot item = record r {
  pipeline = record r.pipeline { slots = set_item r.pipeline.slots slot item };
}

abbrev counts_reply : Reactor → WorkItem → Reactor
counts_reply r item =
    if keeps_lane_place item
    then record r { lanes = update r.lanes item.debit expect_pending_reply }
    else r

abbrev looked_up : Reactor → SlotId → WorkItem → Reactor
looked_up r slot item =
    counts_reply
      (record r {
        pending = on_overlay r.pending (λ o. Overlay.begin_lookup o item.tx.pending_ref);
        pipeline = record r.pipeline {
          slots = expect_applies r.pipeline.slots slot r.pending.applies_sent;
        };
      })
      item

abbrev step_taken : PendingStep → Reactor → SlotId → WorkItem → Reactor × Bool
step_taken look_up r slot item =
    let sent = lookup r.pending (record {
      correlation = slot;
      tx_id = item.tx.id;
      lane = item.lane;
      seq = item.seq;
      pending_ref = item.tx.pending_ref;
    }) in
    let after = record r { pending = sent.0 } in
    (if sent.1 then looked_up after slot item else after, sent.1)
step_taken take_place r slot item =
    let sent = fence r.pending (record { correlation = slot; lane = item.lane; seq = item.seq }) in
    let after = record r { pending = sent.0 } in
    (
      if sent.1
          then record after { lanes = update after.lanes item.debit expect_pending_reply }
          else after,
      sent.1,
    )
step_taken inline r slot item = (with_item r slot (clear_dep (item_of r slot) pending_dep), true)

unfoldable pub take_pending_step : Reactor → SlotId → WorkItem → Reactor × Bool
take_pending_step r slot item =
    step_taken
      (step_of
        (needs_pending_lookup item.kind
          && not (Overlay.hold_is_missing (overlay_of r) item.tx.pending_ref))
        (awaits_pending_reply (get r.lanes item.debit)))
      r slot item

-- What `dispatch` keeps of which steps have gone through.
abbrev note_sent : Reactor → SlotId → DepFlags → Reactor
note_sent r slot sent = with_item r slot (record (item_of r slot) { sent = sent })

-- The pin is taken where the step is recorded as sent.
abbrev pinned : Reactor → WorkItem → Reactor
pinned r item =
    if needs_pending_lookup item.kind
    then record r { pending = on_overlay r.pending (λ o. Overlay.pin o item.tx.pending_ref) }
    else r

pub dispatch_pending : Reactor → SlotId → WorkItem → DepFlags → Reactor × Bool
dispatch_pending r slot item sent =
    let step = take_pending_step r slot item in
    if not (item.deps.pending && not sent.pending)
    then (note_sent r slot sent, true)
    else if blocks_lookups r.pending
    then (note_sent r slot sent, false)
    else if step.1
    then (note_sent (pinned step.0 item) slot (record sent { pending = true }), true)
    else (note_sent step.0 slot sent, false)

-- False when a queue is full: the item keeps its seq and is sent again later. Judging what has become
-- judgeable is the caller's.
unfoldable pub dispatch : Reactor → SlotId → Reactor × Bool
unfolding dispatch_pending
dispatch r slot =
    let item = item_of r slot in
    let asked = send_idem r slot item in
    if not (item.deps.idem && not item.sent.idem)
    then dispatch_pending r slot item item.sent
    else if asked.1
    then dispatch_pending asked.0 slot item (record item.sent { idem = true })
    else (note_sent asked.0 slot item.sent, false)

unfoldable pub dispatch_or_defer : Reactor → SlotId → Reactor
dispatch_or_defer r slot =
    let sent = dispatch r slot in
    if sent.1 then sent.0 else record sent.0 { pipeline = defer sent.0.pipeline slot }
