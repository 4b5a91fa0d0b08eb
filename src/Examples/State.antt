-- ===== src/Examples/State.antt =====
-- sequencer/src/state: small lanes, batches, queues and pools.
use my_ledger.Common.{
  ℕ, suc, ◌⊎◌, ◌≢◌, ◌≡◌, ◌≤◌, ◌<◌, ◌+◌, ◌++◌, refl, true, false, arith, List, [], ◌∷◌, length,
}
use my_ledger.Common.Int.{pos, ◌+ℤ◌}
use my_ledger.Common.Map.{lookup}
use my_ledger.Base.Effect.{Effect, reservation, reserved}
use my_ledger.Base.Protocol.{Ack, duplicate}
use my_ledger.Base.Ports.Pending.{Reduce, reduce}
use my_ledger.Pending.Overlay.{known, live, releasing, release_reservation}
use my_ledger.Pending.Overlay.Reservation.{spare}
use my_ledger.Sequencer.State.Batcher.{Batcher, cut, chain_at, new_batcher}
use my_ledger.Sequencer.State.Batcher.Boundary.{cut-IsBoundary}
use my_ledger.Sequencer.State.Batcher.Order.{
  pushes, proposes, all_judged, run-fifo, run as run_batcher,
}
use my_ledger.Sequencer.State.Channel.{
  PendingChannel, new_channel, on_overlay, write, blocks_lookups,
}
use my_ledger.Sequencer.State.Channel.Order.{
  writes_effect, flushes, engine_takes, decisions, written, run-decisions, run as run_channel,
}
use my_ledger.Sequencer.State.Channel.Gap.{write_gap}
use my_ledger.Sequencer.State.Lane.{idle_lane, get, reserve, release}
use my_ledger.Sequencer.State.Lane.Order.{LaneOp, consecutive, run-consecutive, run as run_lane}
use my_ledger.Sequencer.State.Lane.Overlay.{release-reserve}
use my_ledger.Sequencer.State.Outbox.{Outbox, new_outbox}
use my_ledger.Sequencer.State.Outbox.Order.{
  emits, reads, emitted, run-answers, run as run_outbox, flushes as flushes_acks,
  answers as answers_of,
}
use my_ledger.Sequencer.State.Pipeline.{with_capacity, alloc, in_flight}
use my_ledger.Sequencer.State.Pipeline.Slots.{count, opens, allocates, Reach-exclusive}
use my_ledger.Examples.Data.{payment, port_with, open_hold, two_lanes, small_policy}

-- Lanes.
lane_history : List LaneOp
lane_history = LaneOp.issues ∷ LaneOp.accepts 1 ∷ LaneOp.accepts 3 ∷ LaneOp.accepts 2 ∷ []

run-consecutive_example :
    (run_lane idle_lane lane_history).1 ≡ consecutive 0 (run_lane idle_lane lane_history).0.last_seq
unfolding lane_history
run-consecutive_example = run-consecutive lane_history (omega arith)

release-reserve_example : get (release (reserve two_lanes payment) payment) 0 ≡ get two_lanes 0
unfolding get reservation reserved
release-reserve_example =
    release-reserve two_lanes payment 0 (omega arith, omega arith) (omega arith, omega arith)

-- Batches.
abbrev legs_waiting : Batcher
legs_waiting =
    let leg = record payment { chain = 4 } in
    record (new_batcher small_policy) { effects = payment ∷ leg ∷ leg ∷ []; slots = 0 ∷ 1 ∷ 2 ∷ [] }

abbrev leg : Effect
leg = record payment { chain = 4 }

cut-IsBoundary_example :
    (cut legs_waiting ≤ 2)
    × (cut legs_waiting ≤ 3)
    × ((cut legs_waiting ≤ 1) ⊎ (3 ≤ cut legs_waiting))
    × ((t : ℕ)
        → cut legs_waiting ≤ t
        → t < 2
        → (chain_at legs_waiting.effects (suc t) ≡ chain_at legs_waiting.effects t)
          × (chain_at legs_waiting.effects t ≢ 0))
cut-IsBoundary_example =
    cut-IsBoundary legs_waiting (payment ∷ []) (leg ∷ leg ∷ []) [] 4 refl
      (omega arith, (refl, (refl, tt)))

run-fifo_example :
    let (b, handed) =
      run_batcher
        (new_batcher small_policy)
        (pushes payment 0 1 ∷ pushes payment 1 2 ∷ proposes 3 false ∷ proposes 4 true ∷ []) in
    (handed.effects ++ b.effects ≡ payment ∷ payment ∷ [])
    × (handed.slots ++ b.slots ≡ 0 ∷ 1 ∷ [])
    × (length handed.effects ≡ length handed.slots)
unfolding all_judged
run-fifo_example =
    run-fifo small_policy
      (pushes payment 0 1 ∷ pushes payment 1 2 ∷ proposes 3 false ∷ proposes 4 true ∷ [])

-- Queues.
abbrev an_ack : Ack
an_ack = record { tx_id = 1; lane = 7; seq = 1; outcome = duplicate; submitted_at_nanos = 0 }

abbrev narrow_outbox : Outbox
narrow_outbox = new_outbox (record { taken = []; room = 1 }) 4

run-answers_example :
    answers_of
      (run_outbox narrow_outbox (emits an_ack ∷ emits an_ack ∷ reads 1 ∷ flushes_acks ∷ []))
    ≡ an_ack ∷ an_ack ∷ []
unfolding emitted
run-answers_example =
    run-answers narrow_outbox (emits an_ack ∷ emits an_ack ∷ reads 1 ∷ flushes_acks ∷ [])

abbrev a_reduction : Reduce
a_reduction = record {
  pending_ref = 5;
  debit_account = 7;
  credit_account = 9;
  amount = pos 50;
  remaining = pos 40;
  ledger = 1;
  budget = 0;
}

abbrev channel_with : ℕ → PendingChannel
channel_with room = new_channel (port_with room) 4

run-decisions_example :
    decisions (
      run_channel
        (channel_with 0)
        (writes_effect (reduce a_reduction) 1 ∷ engine_takes 1 ∷ flushes ∷ []))
    ≡ decisions (channel_with 0) ++ (reduce a_reduction, 1) ∷ []
unfolding written
run-decisions_example =
    run-decisions (channel_with 0)
      (writes_effect (reduce a_reduction) 1 ∷ engine_takes 1 ∷ flushes ∷ [])

write_gap_example :
    let ch' =
      write
        (on_overlay (channel_with 0) (λ o. release_reservation o 5 (pos 10)))
        (reduce a_reduction)
        1 in
    (known ch'.port.overlay 5 ≡ live (releasing (pos 10) open_hold))
    × (spare (releasing (pos 10) open_hold) ≡ spare open_hold +ℤ pos 10)
    × (blocks_lookups ch' ≡ true)
unfolding known lookup
write_gap_example =
    write_gap (channel_with 0) a_reduction 1 open_hold (pos 10) refl refl (omega arith)
      (omega arith) (omega arith, omega arith)

-- Slots.
Reach-exclusive_example :
    (count 0 (alloc (with_capacity 2)).0.free + count 0 (0 ∷ []) ≡ 1)
    × (in_flight (alloc (with_capacity 2)).0 ≡ 1)
    × (in_flight (alloc (with_capacity 2)).0 ≤ 2)
unfolding alloc
Reach-exclusive_example =
    Reach-exclusive 2 (alloc (with_capacity 2)).0 (0 ∷ []) 0 (omega arith) (allocates 0 opens refl)
