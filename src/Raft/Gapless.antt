-- ===== src/Raft/Gapless.antt =====
-- raft/src/echo.rs: the positions of the committed batches, and what the log keeps.
use my_ledger.Common.{
  ℕ, ◌≡◌, refl, sym, ap, ◌∙◌, Bool, true, false, not, ◌&&◌, List, [], ◌∷◌, ◌++◌, append-nil,
  append_assoc, leb, if◌then◌else◌, inc_word, push_back, Bool-cases, inl, inr, either_branch,
}
use my_ledger.Base.Effect.{Effect}
use my_ledger.Base.Ports.Raft.{RaftProposal, RaftOutcome, RaftCommit}
use my_ledger.Base.Staged.{sent, sent-send, sent-flush, is_stuck, flush}
use my_ledger.Stubkit.Gate.{AnswerGate, may_send, is_open}
use my_ledger.Raft.{
  RaftWorker, Flying, is_committed, take_proposal, drain_proposals, answer, deliver_due, noted,
  deliver,
}

-- What happens to the worker: proposals that it takes with the times, a round of deliveries, and what a
-- test does to the gate.
pub data Event : Type 0 where
  drains : List (RaftProposal × ℕ) → Event
  delivers : ℕ → Event
  gates : (AnswerGate → AnswerGate) → Event

unfoldable pub step : RaftWorker → Event → RaftWorker
step w (drains proposals) = drain_proposals w proposals
step w (delivers now) = (deliver w now).0
step w (gates change) = record w { gate = change w.gate }

unfoldable pub run : RaftWorker → List Event → RaftWorker
run w [] = w
run w (event ∷ events) = run (step w event) events

-- The position after a batch.
abbrev pub index_after : ℕ → RaftOutcome → ℕ
index_after index outcome = if is_committed outcome then inc_word 64 index else index

-- Every committed batch has the position after the last one, and a refused one has the last one's.
unfoldable pub Numbered : ℕ → List RaftCommit → Type 0
Numbered index [] = Unit
Numbered index (c ∷ rest) = (c.index ≡ index_after index c.outcome) × Numbered c.index rest

unfoldable pub last_index : ℕ → List RaftCommit → ℕ
last_index index [] = index
last_index index (c ∷ rest) = last_index c.index rest

unfoldable pub committed_effects : List RaftCommit → List Effect
committed_effects [] = []
committed_effects (c ∷ rest) =
    (if is_committed c.outcome then c.effects else []) ++ committed_effects rest

Numbered-push :
    (index : ℕ) (commits : List RaftCommit) (c : RaftCommit)
    → Numbered index commits
    → c.index ≡ index_after (last_index index commits) c.outcome
    → Numbered index (push_back commits c) × (last_index index (push_back commits c) ≡ c.index)
unfolding Numbered last_index
Numbered-push index [] c all next = ((next, tt), refl)
Numbered-push index (d ∷ rest) c all next =
    let later = Numbered-push d.index rest c all.1 next in ((all.0, later.0), later.1)

committed_effects-push :
    (commits : List RaftCommit) (c : RaftCommit)
    → committed_effects (push_back commits c)
      ≡ committed_effects commits ++ (if is_committed c.outcome then c.effects else [])
unfolding committed_effects
committed_effects-push [] c = append-nil (if is_committed c.outcome then c.effects else [])
committed_effects-push (d ∷ rest) c = rw (committed_effects-push rest c) (
    sym
      (append_assoc (if is_committed d.outcome then d.effects else []) (committed_effects rest) _))

pub record IsGapless (w : RaftWorker) : Type 0 where
  pub numbered : Numbered 0 (sent w.commits)
  pub last : last_index 0 (sent w.commits) ≡ w.next_index
  pub logged : w.keep_log ≡ true → w.log ≡ committed_effects (sent w.commits)

answer-IsGapless :
    (w : RaftWorker) (one : Flying)
    → is_stuck w.commits ≡ false
    → IsGapless w
    → IsGapless (answer w one)
unfolding answer
answer-IsGapless w one clear ok = record {
  numbered = rw (sent-send w.commits commit clear) pushed.0;
  last = rw (sent-send w.commits commit clear) pushed.1;
  logged = λ keeps. rw (sent-send w.commits commit clear) (
      rw (committed_effects-push (sent w.commits) commit) (
        rw keeps (
          logs (is_committed one.outcome) w.log (committed_effects (sent w.commits))
            one.proposal.effects (ok.logged keeps))));
}
  where
    commit : RaftCommit
    commit = record {
      batch_id = one.proposal.batch_id;
      index = index_after w.next_index one.outcome;
      outcome = one.outcome;
      effects = one.proposal.effects;
    }

    pushed :
        Numbered 0 (push_back (sent w.commits) commit)
        × (last_index 0 (push_back (sent w.commits) commit) ≡ commit.index)
    pushed =
        Numbered-push 0 (sent w.commits) commit ok.numbered
          (ap (λ index. index_after index one.outcome) (sym ok.last))

    logs :
        (commits : Bool) (log effects added : List Effect)
        → log ≡ effects
        → (if commits then log ++ added else log) ≡ effects ++ (if commits then added else [])
    logs true log effects added e = ap (λ log. log ++ added) e
    logs false log effects added e = e ∙ sym (append-nil effects)

deliver_due-IsGapless :
    (list : List Flying) (w : RaftWorker) (now : ℕ)
    → IsGapless w
    → IsGapless (deliver_due list w now).0
unfolding deliver_due
deliver_due-IsGapless [] w now ok = record {
  numbered = ok.numbered;
  last = ok.last;
  logged = ok.logged;
}
deliver_due-IsGapless (one ∷ rest) w now ok =
    elim (Bool-cases (not (is_stuck w.commits) && may_send w.gate && leb one.due now)) [
      | inl sends ↦ rw sends (
          deliver_due-IsGapless rest (answer w one) now (
            answer-IsGapless w one
              (clear (is_stuck w.commits) (may_send w.gate) (leb one.due now) sends) ok))
      | inr waits ↦ rw waits (record { numbered = ok.numbered; last = ok.last; logged = ok.logged })
    ]
  where
    clear : (stuck a b : Bool) → (not stuck && a && b) ≡ true → stuck ≡ false
    clear true a b e = absurd (cc e)
    clear false a b e = refl

deliver-IsGapless : (w : RaftWorker) (now : ℕ) → IsGapless w → IsGapless (deliver w now).0
unfolding deliver
deliver-IsGapless w now ok =
    either_branch (λ (result : RaftWorker × Bool). IsGapless result.0)
      (not (flush (noted w).commits).1) _ _ flushed
      (deliver_due-IsGapless (noted w).inflight ready now flushed)
  where
    ready : RaftWorker
    ready = record (noted w) { commits = (flush (noted w).commits).0 }

    noted_ok : IsGapless (noted w)
    noted_ok =
        either_branch IsGapless (not (is_open w.gate)) _ _
          (record { numbered = ok.numbered; last = ok.last; logged = ok.logged }) ok

    flushed : IsGapless ready
    flushed = record {
      numbered = rw (sent-flush (noted w).commits) noted_ok.numbered;
      last = rw (sent-flush (noted w).commits) noted_ok.last;
      logged = λ keeps. rw (sent-flush (noted w).commits) (noted_ok.logged keeps);
    }

drain-IsGapless :
    (proposals : List (RaftProposal × ℕ)) (w : RaftWorker)
    → IsGapless w
    → IsGapless (drain_proposals w proposals)
unfolding drain_proposals take_proposal
drain-IsGapless [] w ok = ok
drain-IsGapless ((proposal, now) ∷ rest) w ok =
    drain-IsGapless rest (take_proposal w proposal now)
      (record { numbered = ok.numbered; last = ok.last; logged = ok.logged })

step-IsGapless : (w : RaftWorker) (event : Event) → IsGapless w → IsGapless (step w event)
unfolding step
step-IsGapless w (drains proposals) ok = drain-IsGapless proposals w ok
step-IsGapless w (delivers now) ok = deliver-IsGapless w now ok
step-IsGapless w (gates change) ok = record {
  numbered = ok.numbered;
  last = ok.last;
  logged = ok.logged;
}

-- From a worker whose answers so far are gapless, as those of one that has answered nothing are, after
-- any proposals and deliveries, with faults, swapped answers, a full queue and a gate that a test opens
-- and closes: every committed batch has the position after the batch before it and a refused one takes
-- none, the worker's counter is the position of the last, and where the log is kept it holds exactly the
-- effects of the committed batches, in the order of their positions.
pub run-IsGapless : (w : RaftWorker) (events : List Event) → IsGapless w → IsGapless (run w events)
unfolding run
run-IsGapless w [] ok = ok
run-IsGapless w (event ∷ events) ok =
    run-IsGapless (step w event) events (step-IsGapless w event ok)
