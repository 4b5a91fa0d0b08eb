-- ===== src/Sequencer/State/Lane/Order.antt =====
-- Contract 1 on one lane: what is judged comes in the order of the seqs, with no gap and no repeat.
use my_ledger.Common.{
  ℕ, zero, suc, ◌+◌, ◌^◌, ◌<◌, ◌≡◌, refl, ap, ◌∙◌, List, [], ◌∷◌, ◌++◌, ◌⊎◌, arith, length,
  if◌then◌else◌,
}
use my_ledger.Base.Ids.{Amount, Seq}
use my_ledger.Base.Error.{is_ok}
use my_ledger.Sequencer.State.Lane.{
  LaneState, idle_lane, issue_seq, accept_seq, reserve_amount, release_amount, expect_pending_reply,
  pending_reply_arrived, entered, left, quarantine, release_quarantine,
}

-- Everything that the sequencer does to a lane.
pub data LaneOp : Type 0 where
  issues enters leaves expects arrives quarantines releases_quarantine : LaneOp
  accepts : Seq → LaneOp
  reserves releases : Amount → LaneOp

-- One operation: the lane afterwards, and the seq that was judged, if one was.
pub step : LaneState → LaneOp → LaneState × List Seq
step lane LaneOp.issues = ((issue_seq lane).0, [])
step lane LaneOp.enters = (entered lane, [])
step lane LaneOp.leaves = (left lane, [])
step lane LaneOp.expects = (expect_pending_reply lane, [])
step lane LaneOp.arrives = (pending_reply_arrived lane, [])
step lane LaneOp.quarantines = (quarantine lane, [])
step lane LaneOp.releases_quarantine = ((release_quarantine lane).0, [])
step lane (LaneOp.accepts seq) =
    let (lane', r) = accept_seq lane seq in (lane', if is_ok r then seq ∷ [] else [])
step lane (LaneOp.reserves amount) = (reserve_amount lane amount, [])
step lane (LaneOp.releases amount) = (release_amount lane amount, [])

pub run : LaneState → List LaneOp → LaneState × List Seq
run lane [] = (lane, [])
run lane (op ∷ ops) =
    let (lane', judged) = step lane op in
    let (lane'', later) = run lane' ops in (lane'', judged ++ later)

-- `n + 1, n + 2, ..., n + k`.
abbrev pub consecutive : ℕ → ℕ → List Seq
consecutive n zero = []
consecutive n (suc k) = (n + 1) ∷ consecutive (n + 1) k

-- A step judges nothing and leaves `last_seq`, or judges the next seq and moves `last_seq` to it.
step_cases :
    (lane : LaneState) (op : LaneOp)
    → lane.last_seq + 1 < 2 ^ 64
    → (((step lane op).1 ≡ []) × ((step lane op).0.last_seq ≡ lane.last_seq))
      ⊎ (((step lane op).1 ≡ (lane.last_seq + 1) ∷ [])
          × ((step lane op).0.last_seq ≡ lane.last_seq + 1))
unfolding step issue_seq accept_seq reserve_amount release_amount expect_pending_reply
    pending_reply_arrived entered left quarantine release_quarantine
step_cases lane LaneOp.issues h = ground arith
step_cases lane op h = ground arith

run-consecutive_from :
    (lane : LaneState) (ops : List LaneOp)
    → lane.last_seq + length ops < 2 ^ 64
    → ((run lane ops).1 ≡ consecutive lane.last_seq (length (run lane ops).1))
      × ((run lane ops).0.last_seq ≡ lane.last_seq + length (run lane ops).1)
unfolding run
run-consecutive_from lane [] h = (refl, omega arith)
run-consecutive_from lane (op ∷ ops) h =
    ground (arith, step_cases lane op, run-consecutive_from (step lane op).0 ops)

-- Whatever is done to a fresh lane, in any order, with any seqs offered: the seqs that it accepts are
-- 1, 2, 3 and so on up to its `last_seq`, each once and in that order, as long as fewer than 2^64
-- operations were done.
pub run-consecutive :
    (ops : List LaneOp)
    → length ops < 2 ^ 64
    → (run idle_lane ops).1 ≡ consecutive 0 (run idle_lane ops).0.last_seq
run-consecutive ops h =
    let from = run-consecutive_from idle_lane ops (omega arith) in
    from.0 ∙ ap (consecutive 0) (omega (arith, from.1))

-- Once a drained lane is released from quarantine, the next seq that it issues is the one after the
-- last that was judged, so that a client can submit again what was lost.
pub release_quarantine_reissues :
    (lane : LaneState)
    → lane.last_seq + 1 < 2 ^ 64
    → lane.in_flight ≡ 0
    → (issue_seq (release_quarantine lane).0).1 ≡ lane.last_seq + 1
unfolding issue_seq release_quarantine
release_quarantine_reissues lane h e = ground arith
