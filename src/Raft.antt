-- ===== src/Raft.antt =====
-- raft/src/echo.rs: the local stand-in for consensus, which commits every proposal after a round trip.
pub mod Gapless
pub mod Order
use my_ledger.Common.{
  ℕ, zero, suc, ◌%◌, ◌<◌, ◌≤◌, Bool, true, false, not, ◌&&◌, ◌||◌, List, [], ◌∷◌, ◌++◌, ltb, leb,
  ◌==◌, if◌then◌else◌, inc_word, length, push_back,
}
use my_ledger.Base.Effect.{Effect}
use my_ledger.Base.Ports.Raft.{RaftProposal, RaftOutcome, committed, failed, RaftCommit}
use my_ledger.Base.Prng.{Prng}
use my_ledger.Base.Staged
use my_ledger.Base.Staged.{StagedProducer}
use my_ledger.Stubkit.Gate.{AnswerGate, is_open, may_send, spend, note_waiting}
use my_ledger.Stubkit.Latency.{LatencyRange, due_from}

pub record Flying : Type 0 where
  pub due : ℕ
  pub proposal : RaftProposal
  pub outcome : RaftOutcome

pub record RaftWorker : Type 0 where
  pub log : List Effect
  pub keep_log : Bool
  pub commits : StagedProducer RaftCommit
  pub inflight : List Flying
  pub jitter : Prng
  pub round_trip : LatencyRange
  pub fail_every : ℕ
  pub reorder_every : ℕ
  pub proposals_seen : ℕ
  pub gate : AnswerGate
  pub next_index : ℕ

-- `VecDeque::swap` of the last two; fewer are left as they are.
unfoldable pub swap_last : List Flying → List Flying
swap_last [] = []
swap_last (a ∷ []) = a ∷ []
swap_last (a ∷ b ∷ []) = b ∷ a ∷ []
swap_last (a ∷ b ∷ c ∷ rest) = a ∷ swap_last (b ∷ c ∷ rest)

-- `u64::is_multiple_of`, where a fault is on.
abbrev pub falls_due : ℕ → ℕ → Bool
falls_due every seen = ltb 0 every && seen % every == 0

abbrev pub outcome_of : Bool → RaftOutcome
outcome_of fails = if fails then failed else committed

-- One proposal, and the time at which it is taken.
unfoldable pub take_proposal : RaftWorker → RaftProposal → ℕ → RaftWorker
take_proposal w proposal now =
    let seen = inc_word 64 w.proposals_seen in
    let drawn = due_from w.round_trip now w.jitter in
    let inflight = push_back w.inflight (record {
      due = drawn.1;
      proposal = proposal;
      outcome = outcome_of (falls_due w.fail_every seen);
    }) in
    record w {
      proposals_seen = seen;
      jitter = drawn.0;
      inflight = if falls_due w.reorder_every seen then swap_last inflight else inflight;
    }

unfoldable pub drain_proposals : RaftWorker → List (RaftProposal × ℕ) → RaftWorker
drain_proposals w [] = w
drain_proposals w ((proposal, now) ∷ rest) = drain_proposals (take_proposal w proposal now) rest

abbrev pub is_committed : RaftOutcome → Bool
is_committed committed = true
is_committed failed = false

-- A committed batch takes the next position, a refused one takes none.
unfoldable pub answer : RaftWorker → Flying → RaftWorker
answer w one =
    let index = if is_committed one.outcome then inc_word 64 w.next_index else w.next_index in
    record w {
      log = if w.keep_log && is_committed one.outcome then w.log ++ one.proposal.effects else w.log;
      next_index = index;
      gate = spend w.gate;
      commits = Staged.send w.commits (record {
        batch_id = one.proposal.batch_id;
        index = index;
        outcome = one.outcome;
        effects = one.proposal.effects;
      });
    }

unfoldable pub deliver_due : List Flying → RaftWorker → ℕ → RaftWorker × Bool
deliver_due [] w now = (record w { inflight = [] }, false)
deliver_due (one ∷ rest) w now =
    let later = deliver_due rest (answer w one) now in
    if not (Staged.is_stuck w.commits) && may_send w.gate && leb one.due now
    then (later.0, true)
    else (record w { inflight = one ∷ rest }, false)

abbrev pub noted : RaftWorker → RaftWorker
noted w =
    if not (is_open w.gate) then record w { gate = note_waiting w.gate (length w.inflight) } else w

unfoldable pub deliver : RaftWorker → ℕ → RaftWorker × Bool
deliver w now =
    let w' = noted w in
    let flushed = Staged.flush w'.commits in
    let ready = record w' { commits = flushed.0 } in
    if not flushed.1 then (ready, false) else deliver_due ready.inflight ready now
