-- ===== src/Examples/Reactor.antt =====
-- sequencer/src/reactor: a reactor with two accounts, deciding and applying a few effects.
use my_ledger.Common.{ℕ, zero, suc, ◌≡◌, refl, arith, inl, inr, [], ◌∷◌}
use my_ledger.Common.Int.{pos, ◌≤ℤ◌, ◌+ℤ◌, ◌-ℤ◌, eqb_ℤ, add_i64, sub_i64, wrap_i64, checked_add}
use my_ledger.Common.Map.{lookup}
use my_ledger.Base.Effect.{Effect, EffectKind, reservation, reserved, columns, delta}
use my_ledger.Base.Ports.Account.{
  available, is_constrained, can_credit, apply_debit, apply_credit, check, sum,
}
use my_ledger.Base.Ports.Pending.{compose, remove}
use my_ledger.Account.{record_of, resolve, apply}
use my_ledger.Pending.Overlay.{Hold, known, live, overlay, reserve}
use my_ledger.Pending.Overlay.Reservation.{spare}
use my_ledger.Sequencer.Rules.Budget.{allow_resolution}
use my_ledger.Sequencer.State.Lane.{
  LaneTable, get, update, release, reserve_amount, reserve as reserve_lane,
}
use my_ledger.Sequencer.State.Batcher.{next_committed}
use my_ledger.Sequencer.State.Pipeline.{set_item}
use my_ledger.Sequencer.State.Safety.{seal_applies}
use my_ledger.Sequencer.State.Safety.Laws.{SafetyOp, run}
use my_ledger.Base.Ports.Raft.{RaftCommit, RaftOutcome}
use my_ledger.Sequencer.State.Channel.{blocks_lookups}
use my_ledger.Sequencer.Reactor.{Reactor, take_overlays, give_back_overlays}
use my_ledger.Sequencer.Reactor.Judge.{resolve_hold, direct, direct_effect, spendable}
use my_ledger.Sequencer.Reactor.Judge.Funds.{funds, worth, InRange, apply-keeps_funds}
use my_ledger.Sequencer.Reactor.Judge.Books.{
  Books, Reach, here, next, judges, commits, first, later, promised, IsBooked, IsPaid,
}
use my_ledger.Sequencer.Reactor.Judge.Overdraft.{Reach-IsPaid}
use my_ledger.Sequencer.Reactor.Judge.Resolution.{
  IsResolution, resolve_hold-IsResolution, resolve_hold-keeps_spare,
}
use my_ledger.Sequencer.Reactor.Apply.{commit_batch, apply as apply_commits}
use my_ledger.Sequencer.Reactor.Apply.Sealed.{apply_mismatched}
use my_ledger.Sequencer.Reactor.Apply.Rollback.{
  SameOverlays, TakesOpen, give_back_overlays-take_overlays,
}
use my_ledger.Sequencer.Reactor.Apply.Counts.{IsCounted, commit_batch-IsCounted}
use my_ledger.Sequencer.Reactor.Chains.{judge_chain_legs}
use my_ledger.Sequencer.Reactor.Chains.Whole.{IsWhole, chain_failure, judge_chain_legs-IsWhole}
use my_ledger.Sequencer.Reactor.Intake.{dispatch}
use my_ledger.Sequencer.Reactor.Intake.Refusal.{dispatch_blocked}
use my_ledger.Examples.Data.{
  pay_item, reactor, two_accounts, two_lanes, payment, partial_settle, settle_item, pay_transfer,
  pair, hold_overlay, open_hold, hold_record,
}

apply-keeps_funds_example :
    funds two_accounts two_lanes 0
    ≤ℤ funds (apply two_accounts payment).0 (release two_lanes payment) 0
unfolding apply can_credit apply_debit apply_credit check sum checked_add columns delta record_of
    get reservation reserved add_i64 wrap_i64 ◌+ℤ◌
apply-keeps_funds_example =
    apply-keeps_funds two_accounts two_lanes payment 0 (omega arith) (omega arith) refl
      (omega arith) (omega arith, omega arith) (omega arith, omega arith)

two_accounts-InRange : InRange two_accounts two_lanes 0
unfolding funds record_of get ◌+ℤ◌ ◌-ℤ◌
two_accounts-InRange = record {
  posted_fits = (omega arith, omega arith);
  worth_fits = (omega arith, omega arith);
  funds_fits = (omega arith, omega arith);
}

-- Two payments are judged, and the first of them is committed.
abbrev paid : Effect
paid = direct pay_item EffectKind.post

abbrev one_taken : LaneTable
one_taken = reserve_lane two_lanes paid

abbrev two_taken : LaneTable
two_taken = reserve_lane one_taken paid

abbrev books : Books
books = record { accounts = two_accounts; lanes = two_lanes; waiting = [] }

abbrev one_waits : Books
one_waits = record {
  accounts = (apply two_accounts paid).0;
  lanes = release two_taken paid;
  waiting = paid ∷ [];
}

one_taken-InRange : InRange two_accounts one_taken 0
unfolding funds record_of get ◌+ℤ◌ ◌-ℤ◌ reserve_lane reserve_amount reservation reserved update
    sub_i64 wrap_i64
one_taken-InRange = record {
  posted_fits = (omega arith, omega arith);
  worth_fits = (omega arith, omega arith);
  funds_fits = (omega arith, omega arith);
}

books-Reach : Reach books one_waits
unfolding apply can_credit apply_debit apply_credit check sum checked_add columns delta record_of
    get reservation reserved add_i64 wrap_i64 ◌+ℤ◌ ◌-ℤ◌ direct_effect is_constrained reserve_lane
    reserve_amount sub_i64 update spendable available
books-Reach =
    next
      (next
        (next here (
          judges two_accounts two_lanes [] pay_item EffectKind.post paid refl (omega arith)
            two_accounts-InRange (omega arith, omega arith)))
        (judges two_accounts one_taken (paid ∷ []) pay_item EffectKind.post paid refl (omega arith)
          one_taken-InRange (omega arith, omega arith)))
      (commits two_accounts two_taken paid (later paid (first [])) (omega arith) (omega arith) refl
        (omega arith, omega arith) (omega arith, omega arith))

books-IsBooked : IsBooked books
unfolding get promised ◌-ℤ◌
books-IsBooked = record { taken = nothing_taken; nonneg = tt }
  where
    nothing_taken : (handle : ℕ) → (get two_lanes handle).speculative ≡ pos 0 -ℤ promised [] handle
    nothing_taken zero = refl
    nothing_taken (suc zero) = refl
    nothing_taken (suc (suc handle)) = refl

books-IsPaid : IsPaid books
unfolding IsPaid record_of is_constrained promised ◌+ℤ◌ ◌-ℤ◌
books-IsPaid zero limited = omega arith
books-IsPaid (suc zero) limited = absurd (ground arith)
books-IsPaid (suc (suc handle)) limited = omega arith

Reach-IsPaid_example :
    ((get (release two_taken paid) 0).speculative ≡ pos 0 -ℤ promised (paid ∷ []) 0)
    × (promised (paid ∷ []) 0 ≤ℤ worth (record_of (apply two_accounts paid).0 0))
    × (pos 0 ≤ℤ worth (record_of (apply two_accounts paid).0 0))
unfolding apply can_credit apply_debit apply_credit check sum checked_add columns delta record_of
    is_constrained ◌+ℤ◌
Reach-IsPaid_example = Reach-IsPaid books one_waits 0 books-Reach books-IsBooked books-IsPaid refl

abbrev settles_ten : Effect
settles_ten = record partial_settle { remaining_after = pos 20 }

resolve_hold-IsResolution_example :
    IsResolution two_accounts settle_item EffectKind.settle
      (compose hold_record (overlay hold_overlay 5))
      settles_ten
unfolding resolve_hold compose overlay known lookup resolve allow_resolution sub_i64 wrap_i64 ◌-ℤ◌
resolve_hold-IsResolution_example =
    resolve_hold-IsResolution two_accounts settle_item EffectKind.settle
      (compose hold_record (overlay hold_overlay 5)) settles_ten refl

resolve_hold-keeps_spare_example :
    let o' = reserve hold_overlay 5 (pos 10) (eqb_ℤ settles_ten.remaining_after (pos 0)) in
    (pos 10 ≤ℤ spare open_hold)
    × (h' : Hold) × (known o' 5 ≡ live h')
    × (h'.reserved ≡ pos 20 +ℤ pos 10)
    × (pos 0 ≤ℤ spare h')
unfolding resolve_hold compose overlay known lookup resolve allow_resolution sub_i64 wrap_i64 ◌-ℤ◌
resolve_hold-keeps_spare_example =
    resolve_hold-keeps_spare two_accounts settle_item EffectKind.settle hold_overlay open_hold
      hold_record settles_ten refl
      (record {
        committed_nonneg = omega arith;
        committed_fits = (omega arith, omega arith);
        reserved_nonneg = omega arith;
        reserved_within = omega arith;
        found_nonneg = omega arith;
        found_fits = (omega arith, omega arith);
      })
      refl

-- Two legs of one chain, each a payment of 30 out of 100: no leg fails.
abbrev with_legs : Reactor
with_legs = record reactor {
  pipeline = record reactor.pipeline {
    slots =
        set_item (set_item reactor.pipeline.slots 0 (record pay_item { chain = 1 })) 1
          (record pay_item { chain = 1; seq = 2; tx = record pay_transfer { id = 2 } });
  };
}

judge_chain_legs-IsWhole_example :
    IsWhole with_legs.pipeline.slots with_legs.batcher
      (0 ∷ 1 ∷ [])
      (chain_failure with_legs pair)
      (judge_chain_legs with_legs pair 3).batcher
judge_chain_legs-IsWhole_example = judge_chain_legs-IsWhole with_legs pair 3

give_back_overlays-take_overlays_example :
    SameOverlays (give_back_overlays (take_overlays reactor payment) payment) reactor
    × SameOverlays
        (give_back_overlays (take_overlays reactor partial_settle) partial_settle)
        reactor
unfolding known lookup get reservation reserved TakesOpen
give_back_overlays-take_overlays_example = (
  give_back_overlays-take_overlays reactor payment (inl refl) (omega arith, omega arith)
      (omega arith, omega arith) (omega arith, omega arith),
  give_back_overlays-take_overlays reactor partial_settle
      (inr (open_hold, refl, refl, (omega arith, omega arith))) (omega arith, omega arith)
      (omega arith, omega arith) (omega arith, omega arith),
)

reactor-IsCounted : IsCounted reactor
unfolding IsCounted
reactor-IsCounted = refl

commit_batch-IsCounted_example : IsCounted (commit_batch reactor (payment ∷ []) (0 ∷ []) 1)
commit_batch-IsCounted_example =
    commit_batch-IsCounted reactor (payment ∷ []) (0 ∷ []) 1 (omega arith, tt) reactor-IsCounted

abbrev no_slots : Reactor
no_slots = record reactor {
  pipeline = record reactor.pipeline { slots = record reactor.pipeline.slots { free = [] } };
}

-- An answer for batch 2 while batch 1 is the oldest in flight.
abbrev one_in_flight : Reactor
one_in_flight = record reactor {
  batcher = record reactor.batcher {
    in_flight = record { batch_id = 1; slots = []; proposed_at_nanos = 0 } ∷ [];
  };
}

abbrev for_two : RaftCommit
for_two = record {
  batch_id = 2;
  index = 1;
  outcome = RaftOutcome.committed;
  effects = payment ∷ [];
}

apply_mismatched_example :
    let stopped = apply_commits one_in_flight (for_two ∷ for_two ∷ []) in
    let after = record stopped { safety = run stopped.safety (SafetyOp.clears ∷ []) } in
    (stopped ≡ record one_in_flight {
      batcher = (next_committed one_in_flight.batcher).0;
      safety = (seal_applies one_in_flight.safety).0;
    })
    × (apply_commits after (for_two ∷ []) ≡ after)
unfolding next_committed
apply_mismatched_example =
    apply_mismatched one_in_flight for_two (for_two ∷ []) (for_two ∷ []) (SafetyOp.clears ∷ []) refl
      (omega arith)

abbrev behind_a_write : Reactor
behind_a_write = record reactor {
  pending = record reactor.pending {
    writes = (remove (record { pending_ref = 5; budget = 0; released = pos 50 }), 1) ∷ [];
  };
}

dispatch_blocked_example : (dispatch behind_a_write 0).0.pending ≡ behind_a_write.pending
unfolding blocks_lookups
dispatch_blocked_example = dispatch_blocked behind_a_write 0 refl
