-- ===== src/Sequencer/State/Lane.antt =====
-- sequencer/src/state/lane.rs: one account's lane, and the table of lanes. Counters wrap at their width
-- as a release build's do; the `debug_assert`s are hypotheses of the theorems.
pub mod Order
pub mod Overlay
use my_ledger.Common.{
  ℕ, ◌+◌, ◌-◌, ◌^◌, Bool, true, false, List, [], ◌∷◌, ◌++◌, Option, ltb, leb, ◌==◌, not,
  if◌then◌else◌, inc_word, dec_word, length, get_or, get_elem?, set, replicate,
}
use my_ledger.Common.Int.{pos, add_i64, sub_i64, eqb_ℤ}
use my_ledger.Base.Ids.{AcctHandle, Amount, Seq}
use my_ledger.Base.Error.{Result, ok, err, seq_gap, quarantine_draining}
use my_ledger.Base.Effect.{Effect, reservation}

pub record LaneState : Type 0 where
  pub seq_counter : Seq
  pub last_seq : Seq
  pub speculative : Amount
  pub in_flight : ℕ
  pub pending_replies : ℕ
  pub quarantined : Bool

-- `LaneState::default`.
abbrev pub idle_lane : LaneState
idle_lane = record {
  seq_counter = 0;
  last_seq = 0;
  speculative = pos 0;
  in_flight = 0;
  pending_replies = 0;
  quarantined = false;
}

-- `u16::MAX`.
abbrev pub max_pending_replies : ℕ
max_pending_replies = 2 ^ 16 - 1

-- The lane afterwards, and the seq issued.
unfoldable pub issue_seq : LaneState → LaneState × Seq
issue_seq lane = let seq = inc_word 64 lane.seq_counter in (record lane { seq_counter = seq }, seq)

unfoldable pub accept_seq : LaneState → Seq → LaneState × Result (Unit {0})
accept_seq lane seq =
    let expected = inc_word 64 lane.last_seq in
    if seq == expected
    then (record lane { last_seq = seq }, ok tt)
    else (lane, err (seq_gap expected seq))

unfoldable pub reserve_amount : LaneState → Amount → LaneState
reserve_amount lane amount = record lane { speculative = sub_i64 lane.speculative amount }

unfoldable pub release_amount : LaneState → Amount → LaneState
release_amount lane amount = record lane { speculative = add_i64 lane.speculative amount }

unfoldable pub awaits_pending_reply : LaneState → Bool
awaits_pending_reply lane = ltb 0 lane.pending_replies

unfoldable pub has_reply_capacity : LaneState → Bool
has_reply_capacity lane = ltb lane.pending_replies max_pending_replies

unfoldable pub expect_pending_reply : LaneState → LaneState
expect_pending_reply lane = record lane { pending_replies = inc_word 16 lane.pending_replies }

unfoldable pub pending_reply_arrived : LaneState → LaneState
pending_reply_arrived lane = record lane { pending_replies = dec_word 16 lane.pending_replies }

unfoldable pub entered : LaneState → LaneState
entered lane = record lane { in_flight = inc_word 32 lane.in_flight }

unfoldable pub left : LaneState → LaneState
left lane = record lane { in_flight = dec_word 32 lane.in_flight }

unfoldable pub quarantine : LaneState → LaneState
quarantine lane = record lane { quarantined = true }

unfoldable pub release_quarantine : LaneState → LaneState × Result (Unit {0})
release_quarantine lane =
    if ltb 0 lane.in_flight
    then (lane, err quarantine_draining)
    else (record lane { quarantined = false; seq_counter = lane.last_seq }, ok tt)

-- `LaneTable`: a lane for each handle seen so far.
abbrev pub LaneTable : Type 0
LaneTable = List LaneState

unfoldable pub try_get : LaneTable → AcctHandle → Option LaneState
try_get lanes handle = get_elem? lanes handle

-- A read past the end, on which the code panics, gives an idle lane.
unfoldable pub get : LaneTable → AcctHandle → LaneState
get lanes handle = get_or lanes handle idle_lane

-- `lanes.resize(handle.index() + 1, ...)`, which `get_mut` does first.
unfoldable pub grow : LaneTable → AcctHandle → LaneTable
grow lanes handle =
    if leb (length lanes) handle
    then lanes ++ replicate (handle + 1 - length lanes) idle_lane
    else lanes

-- What is done through `get_mut`: the lane of the handle is replaced by what `f` makes of it.
unfoldable pub update : LaneTable → AcctHandle → (LaneState → LaneState) → LaneTable
unfolding grow
update lanes handle f =
    let grown = grow lanes handle in set grown handle (f (get_or grown handle idle_lane))

-- `LaneTable::reserve`.
unfoldable pub reserve : LaneTable → Effect → LaneTable
reserve lanes effect =
    let amount = reservation effect in
    if not (eqb_ℤ amount (pos 0))
    then update lanes effect.debit (λ lane. reserve_amount lane amount)
    else lanes

-- `LaneTable::release`.
unfoldable pub release : LaneTable → Effect → LaneTable
release lanes effect =
    let amount = reservation effect in
    if not (eqb_ℤ amount (pos 0))
    then update lanes effect.debit (λ lane. release_amount lane amount)
    else lanes

sum_speculative : Amount → LaneTable → Amount
sum_speculative total [] = total
sum_speculative total (lane ∷ lanes) = sum_speculative (add_i64 total lane.speculative) lanes

unfoldable pub overlay_total : LaneTable → Amount
unfolding sum_speculative
overlay_total lanes = sum_speculative (pos 0) lanes
