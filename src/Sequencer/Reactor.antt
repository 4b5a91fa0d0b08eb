-- ===== src/Sequencer/Reactor.antt =====
-- sequencer/src/reactor.rs: the state of the reactor, what a tick checks of it, and the ends of a
-- request. The log, the profile and the counters that nothing reads back are left out; the clock is read
-- by the caller. The idempotency engine and consensus are queues to other threads.
pub mod Judge
pub mod Apply
pub mod Chains
pub mod Intake
pub mod Quarantine
use my_ledger.Common.{
  ℕ, Bool, true, false, not, ◌&&◌, Option, none, some, List, [], ◌∷◌, ltb, ◌==◌, if◌then◌else◌,
  inc_word, length, is_some,
}
use my_ledger.Common.Int.{pos, eqb_ℤ}
use my_ledger.Common.Queue.{Queue}
use my_ledger.Base.Ids.{AccountId, AcctHandle, Seq, TxId, Amount}
use my_ledger.Base.Error.{
  Result, ok, err, ◌>>=◌, ◌>>◌, ok_or, LedgerError, quarantine_draining, unknown_account,
}
use my_ledger.Base.Transfer.{Transfer, is_client, TransferKind, lane}
use my_ledger.Base.Effect.{Effect, EffectKind}
use my_ledger.Base.Protocol.{Ack, AckOutcome, Request, committed, duplicate, rejected}
use my_ledger.Base.Ports.Account.{balanced}
use my_ledger.Base.Ports.Idempotency.{IdemRequest}
use my_ledger.Base.Ports.Raft.{RaftProposal}
use my_ledger.Account.{MemoryAccounts, resolve, totals}
use my_ledger.Pending.Overlay.{HoldOverlay}
use my_ledger.Pending.Overlay
use my_ledger.Sequencer.Config.{ReactorConfig}
use my_ledger.Sequencer.Rules.Linked.{LinkedChains}
use my_ledger.Sequencer.State.Batcher.{Batcher, SlotId}
use my_ledger.Sequencer.State.Cascade.{Cascade}
use my_ledger.Sequencer.State.Channel.{PendingChannel, on_overlay}
use my_ledger.Sequencer.State.Expiry.{ExpiryQueue}
use my_ledger.Sequencer.State.Lane.{LaneTable, overlay_total}
use my_ledger.Sequencer.State.Lane
use my_ledger.Sequencer.State.Outbox.{Outbox, emit}
use my_ledger.Sequencer.State.Pipeline.{Pipeline, WorkItem, item_at, holds_pin, in_flight}
use my_ledger.Sequencer.State.Pipeline
use my_ledger.Sequencer.State.Safety.{Safety, trip, seal_applies, lanes_lost}
use my_ledger.Sequencer.State.Safety

-- The counters of sequencer/src/metrics.rs that the reactor's own checks read.
pub record Metrics : Type 0 where
  pub judged : ℕ
  pub committed_count : ℕ
  pub order_exempt : ℕ
  pub slot_exhaustion : ℕ

pub record Reactor : Type 0 where
  pub config : ReactorConfig
  pub accounts : MemoryAccounts
  pub lanes : LaneTable
  pub linked : LinkedChains
  pub pipeline : Pipeline
  pub batcher : Batcher
  pub outbox : Outbox
  pub expiry : ExpiryQueue
  pub cascade : Cascade
  pub pending : PendingChannel
  pub idem : Queue IdemRequest
  pub raft : Queue RaftProposal
  pub safety : Safety
  pub applied_through : ℕ
  pub intake_closed : Bool
  pub metrics : Metrics

abbrev pub item_of : Reactor → SlotId → WorkItem
item_of r slot = item_at r.pipeline.slots slot

abbrev pub overlay_of : Reactor → HoldOverlay
overlay_of r = r.pending.port.overlay

abbrev pub is_resolution : EffectKind → Bool
is_resolution EffectKind.settle = true
is_resolution EffectKind.void = true
is_resolution _ = false

abbrev resolves_hold : Effect → Bool
resolves_hold effect = eqb_ℤ effect.remaining_after (pos 0)

unfoldable pub reserve_hold : Reactor → Effect → Reactor
reserve_hold r effect =
    if is_resolution effect.kind
    then record r {
      pending =
          on_overlay r.pending
            (λ o. Overlay.reserve o effect.pending_ref effect.amount (resolves_hold effect));
    }
    else r

unfoldable pub compensate_hold : Reactor → Effect → Reactor
compensate_hold r effect =
    if is_resolution effect.kind
    then record r {
      pending =
          on_overlay r.pending
            (λ o. Overlay.compensate o effect.pending_ref effect.amount (resolves_hold effect));
    }
    else r

-- Both overlays are taken together.
unfoldable pub take_overlays : Reactor → Effect → Reactor
unfolding reserve_hold
take_overlays r effect = reserve_hold (record r { lanes = Lane.reserve r.lanes effect }) effect

unfoldable pub give_back_overlays : Reactor → Effect → Reactor
unfolding compensate_hold
give_back_overlays r effect =
    compensate_hold (record r { lanes = Lane.release r.lanes effect }) effect

abbrev settle_hold : Reactor → Effect → Reactor
settle_hold r effect =
    if is_resolution effect.kind
    then record r {
      pending =
          on_overlay r.pending
            (λ o. Overlay.release_reservation o effect.pending_ref effect.amount);
    }
    else r

unfoldable pub settle_overlays : Reactor → Effect → Reactor
settle_overlays r effect = settle_hold (record r { lanes = Lane.release r.lanes effect }) effect

unfoldable pub trip_fail_stop : Reactor → Reactor
trip_fail_stop r = record r { safety = (trip r.safety).0 }

-- One fact in two places: the flag that the hot path reads and the list that decides fail-stop.
unfoldable pub quarantine_lane : Reactor → AccountId → AcctHandle → Reactor
unfolding trip_fail_stop
quarantine_lane r account handle =
    let marked = record r {
      lanes = Lane.update r.lanes handle Lane.quarantine;
      safety = (Safety.quarantine r.safety account).0;
    } in
    if lanes_lost marked.safety then trip_fail_stop marked else marked

-- `on_seq_gap` and `on_stale_answer` differ in what they count and log.
unfoldable pub on_seq_gap : Reactor → AccountId → AcctHandle → Reactor
on_seq_gap r account handle = quarantine_lane r account handle

unfoldable pub on_stale_answer : Reactor → AccountId → AcctHandle → Reactor
on_stale_answer r account handle = quarantine_lane r account handle

pub seal : Reactor → Reactor
seal r = record r { safety = (seal_applies r.safety).0 }

-- A hold that the engine could not store, and a store that failed.
unfoldable pub on_hold_not_stored : Reactor → TxId → Reactor
unfolding seal
on_hold_not_stored r hold = seal r

unfoldable pub on_store_failed : Reactor → Reactor
unfolding seal
on_store_failed r = seal r

abbrev lane_left : Lane.LaneState → Lane.LaneState
lane_left lane = Lane.left lane

abbrev unpin_hold : Reactor → WorkItem → Reactor
unpin_hold r item =
    if holds_pin item
    then record r { pending = on_overlay r.pending (λ o. Overlay.unpin o item.tx.pending_ref) }
    else r

abbrev ack_of : WorkItem → AckOutcome → Ack
ack_of item outcome = record {
  tx_id = item.tx.id;
  lane = item.lane;
  seq = item.seq;
  outcome = outcome;
  submitted_at_nanos = item.submitted_at_nanos;
}

-- The ledger does not answer itself: an expiry void gets no ack.
abbrev answer : Reactor → WorkItem → AckOutcome → Reactor
answer r item outcome =
    if is_client item.kind then record r { outbox = emit r.outbox (ack_of item outcome) } else r

unfoldable pub finish : Reactor → SlotId → AckOutcome → Reactor
finish r slot outcome =
    let item = item_of r slot in
    let unpinned = unpin_hold r item in
    answer
      (record unpinned {
        pipeline = record unpinned.pipeline {
          slots = Pipeline.release unpinned.pipeline.slots slot;
        };
        lanes = Lane.update unpinned.lanes item.debit lane_left;
      })
      item outcome

unfoldable pub reject_before_seq : Reactor → Request → LedgerError → Reactor
reject_before_seq r request e = record r {
  outbox = emit r.outbox (record {
    tx_id = request.tx.id;
    lane = lane request.tx;
    seq = 0;
    outcome = rejected e;
    submitted_at_nanos = request.submitted_at_nanos;
  });
}

pub data Broken : Type 0 where
  applied_more_than_judged account_view_disagrees more_requests_than_slots : Broken
  more_proposals_than_allowed identities_broken overlay_survived_quiescence : Broken
  quarantine_disagrees : Broken

-- `Result<(), Broken>`: none is `Ok`.
unfoldable pub counts_add_up : Reactor → Option Broken
counts_add_up r =
    if ltb r.metrics.judged r.metrics.committed_count
    then some applied_more_than_judged
    else if not (r.accounts.applied == r.metrics.committed_count)
    then some account_view_disagrees
    else if ltb r.config.capacity.slots (in_flight r.pipeline.slots)
    then some more_requests_than_slots
    else if ltb r.config.batching.in_flight_limit (length r.batcher.in_flight)
    then some more_proposals_than_allowed
    else none

unfoldable pub is_quiescent : Reactor → Bool
is_quiescent r =
    in_flight r.pipeline.slots == 0
    && length r.batcher.in_flight == 0
    && length r.outbox.backlog == 0
    && length r.pending.writes == 0

abbrev pub flagged_at : LaneTable → Option AcctHandle → Bool
flagged_at lanes none = false
flagged_at lanes (some handle) = (Lane.get lanes handle).quarantined

unfoldable pub all_flagged : Reactor → List AccountId → Bool
all_flagged r [] = true
all_flagged r (id ∷ ids) = flagged_at r.lanes (resolve r.accounts id) && all_flagged r ids

audit_books : Reactor → Option Broken
unfolding is_quiescent all_flagged
audit_books r =
    if not (balanced (totals r.accounts))
    then some identities_broken
    else if is_quiescent r && not (eqb_ℤ (overlay_total r.lanes) (pos 0))
    then some overlay_survived_quiescence
    else if not (all_flagged r r.safety.quarantined)
    then some quarantine_disagrees
    else none

abbrev first_broken : Option Broken → Option Broken → Option Broken
first_broken (some broken) rest = some broken
first_broken none rest = rest

unfoldable pub audit : Reactor → Option Broken
unfolding counts_add_up audit_books
audit r = first_broken (counts_add_up r) (audit_books r)

unfoldable pub clear_fail_stop : Reactor → Reactor × Result (Unit {0})
clear_fail_stop r =
    if ltb 0 (length r.batcher.in_flight)
    then (r, err quarantine_draining)
    else (record r { safety = Safety.clear_fail_stop r.safety }, ok tt)

abbrev drained :
    Reactor
    → AccountId
    → AcctHandle
    → Lane.LaneState × Result (Unit {0})
    → Reactor × Result (Unit {0})
drained r id handle (lane, err e) = (r, err e)
drained r id handle (lane, ok _) = (
  record r { lanes = Lane.update r.lanes handle (λ _. lane); safety = Safety.release r.safety id },
  ok tt,
)

unfoldable pub release_quarantine : Reactor → AccountId → Reactor × Result (Unit {0})
release_quarantine r id = elim (resolve r.accounts id) [
  | none ↦ (r, err (unknown_account id))
  | some handle ↦ drained r id handle (Lane.release_quarantine (Lane.get r.lanes handle))
]
