-- ===== src/Raft/Order.antt =====
-- raft/src/echo.rs: batches are answered in the order of their proposals.
use my_ledger.Common.{
  ℕ, ◌≡◌, refl, sym, ◌∙◌, Bool, true, false, not, ◌&&◌, List, [], ◌∷◌, ◌++◌, append-nil,
  append_assoc, leb, push_back, Bool-cases, inl, inr, either_branch,
}
use my_ledger.Base.Ports.Raft.{RaftProposal, RaftCommit}
use my_ledger.Base.Staged.{sent, sent-send, sent-flush, is_stuck, flush}
use my_ledger.Stubkit.Gate.{may_send, is_open}
use my_ledger.Raft.{
  RaftWorker, Flying, take_proposal, drain_proposals, answer, deliver_due, noted, deliver,
}
use my_ledger.Raft.Gapless.{Event, drains, delivers, gates, step, run}

unfoldable pub answered : List RaftCommit → List RaftProposal
answered [] = []
answered (c ∷ rest) = record { batch_id = c.batch_id; effects = c.effects } ∷ answered rest

unfoldable pub flying : List Flying → List RaftProposal
flying [] = []
flying (one ∷ rest) = one.proposal ∷ flying rest

abbrev pub taken : List (RaftProposal × ℕ) → List RaftProposal
taken [] = []
taken ((proposal, now) ∷ rest) = proposal ∷ taken rest

-- The proposals of a list of events.
unfoldable pub proposed : List Event → List RaftProposal
proposed [] = []
proposed (drains proposals ∷ events) = taken proposals ++ proposed events
proposed (delivers now ∷ events) = proposed events
proposed (gates change ∷ events) = proposed events

-- What a worker has answered and what it still holds.
unfoldable pub held_by : RaftWorker → List RaftProposal
held_by w = answered (sent w.commits) ++ flying w.inflight

answered-push :
    (commits : List RaftCommit) (c : RaftCommit)
    → answered (push_back commits c)
      ≡ push_back (answered commits) (record { batch_id = c.batch_id; effects = c.effects })
unfolding answered
answered-push [] c = refl
answered-push (d ∷ rest) c = rw (answered-push rest c) refl

flying-push :
    (list : List Flying) (one : Flying)
    → flying (push_back list one) ≡ push_back (flying list) one.proposal
unfolding flying
flying-push [] one = refl
flying-push (d ∷ rest) one = rw (flying-push rest one) refl

deliver_due-held_by :
    (list : List Flying) (w : RaftWorker) (now : ℕ)
    → held_by (deliver_due list w now).0 ≡ answered (sent w.commits) ++ flying list
unfolding deliver_due held_by flying answer
deliver_due-held_by [] w now = refl
deliver_due-held_by (one ∷ rest) w now =
    elim (Bool-cases (not (is_stuck w.commits) && may_send w.gate && leb one.due now)) [
      | inl sends ↦ rw sends (
          deliver_due-held_by rest (answer w one) now
          ∙ rw
              (sent-send w.commits _
                (clear (is_stuck w.commits) (may_send w.gate) (leb one.due now) sends))
              (rw (answered-push (sent w.commits) _)
                (append_assoc (answered (sent w.commits)) (one.proposal ∷ []) (flying rest))))
      | inr waits ↦ rw waits refl
    ]
  where
    clear : (stuck a b : Bool) → (not stuck && a && b) ≡ true → stuck ≡ false
    clear true a b e = absurd (cc e)
    clear false a b e = refl

deliver-held_by : (w : RaftWorker) (now : ℕ) → held_by (deliver w now).0 ≡ held_by w
unfolding deliver held_by
deliver-held_by w now =
    either_branch (λ (result : RaftWorker × Bool). held_by result.0 ≡ held_by w)
      (not (flush (noted w).commits).1) _ _ flushed
      (deliver_due-held_by (noted w).inflight
          (record (noted w) { commits = (flush (noted w).commits).0 }) now
        ∙ flushed)
  where
    noted_held : held_by (noted w) ≡ held_by w
    noted_held =
        either_branch (λ (w' : RaftWorker). held_by w' ≡ held_by w) (not (is_open w.gate)) _ _ refl
          refl

    flushed : answered (sent (flush (noted w).commits).0) ++ flying (noted w).inflight ≡ held_by w
    flushed = rw (sent-flush (noted w).commits) noted_held

-- Nothing is swapped.
unfoldable pub InOrder : RaftWorker → Type 0
InOrder w = w.reorder_every ≡ 0

take_proposal-held_by :
    (w : RaftWorker) (proposal : RaftProposal) (now : ℕ)
    → InOrder w
    → held_by (take_proposal w proposal now) ≡ push_back (held_by w) proposal
unfolding InOrder take_proposal held_by
take_proposal-held_by w proposal now in_order = rw in_order (
    rw (flying-push w.inflight _)
      (sym (append_assoc (answered (sent w.commits)) (flying w.inflight) (proposal ∷ []))))

drain-held_by :
    (proposals : List (RaftProposal × ℕ)) (w : RaftWorker)
    → InOrder w
    → (held_by (drain_proposals w proposals) ≡ held_by w ++ taken proposals)
      × InOrder (drain_proposals w proposals)
unfolding drain_proposals take_proposal InOrder
drain-held_by [] w in_order = (sym (append-nil (held_by w)), in_order)
drain-held_by ((proposal, now) ∷ rest) w in_order =
    let later = drain-held_by rest (take_proposal w proposal now) in_order in
    (
      later.0
          ∙ rw (take_proposal-held_by w proposal now in_order)
              (append_assoc (held_by w) (proposal ∷ []) (taken rest)),
      later.1,
    )

deliver_due-InOrder :
    (list : List Flying) (w : RaftWorker) (now : ℕ) → InOrder w → InOrder (deliver_due list w now).0
unfolding deliver_due answer InOrder
deliver_due-InOrder [] w now in_order = in_order
deliver_due-InOrder (one ∷ rest) w now in_order =
    either_branch (λ (result : RaftWorker × Bool). InOrder result.0)
      (not (is_stuck w.commits) && may_send w.gate && leb one.due now) _ _
      (deliver_due-InOrder rest (answer w one) now in_order) in_order

deliver-InOrder : (w : RaftWorker) (now : ℕ) → InOrder w → InOrder (deliver w now).0
unfolding deliver InOrder
deliver-InOrder w now in_order =
    either_branch (λ (result : RaftWorker × Bool). InOrder result.0)
      (not (flush (noted w).commits).1) _ _ still
      (deliver_due-InOrder (noted w).inflight
        (record (noted w) { commits = (flush (noted w).commits).0 }) now still)
  where
    still : InOrder (noted w)
    still = either_branch InOrder (not (is_open w.gate)) _ _ in_order in_order

-- Where the fault that swaps answers is off, after any proposals, deliveries and movements of the gate:
-- what the worker has answered, followed by what it still holds, is what it had before followed by
-- everything proposed since, in the order of the proposals. So nothing is lost, answered twice or
-- overtaken.
pub run-held_by :
    (w : RaftWorker) (events : List Event)
    → InOrder w
    → held_by (run w events) ≡ held_by w ++ proposed events
unfolding run step proposed InOrder held_by
run-held_by w [] in_order = sym (append-nil (held_by w))
run-held_by w (drains proposals ∷ events) in_order =
    let drained = drain-held_by proposals w in_order in
    run-held_by (drain_proposals w proposals) events drained.1
    ∙ rw drained.0 (append_assoc (held_by w) (taken proposals) (proposed events))
run-held_by w (delivers now ∷ events) in_order =
    run-held_by (deliver w now).0 events (deliver-InOrder w now in_order)
    ∙ rw (deliver-held_by w now) refl
run-held_by w (gates change ∷ events) in_order =
    run-held_by (record w { gate = change w.gate }) events (same in_order) ∙ unmoved
  where
    same : InOrder w → InOrder (record w { gate = change w.gate })
    same in_order = in_order

    unmoved :
        held_by (record w { gate = change w.gate }) ++ proposed events
        ≡ held_by w ++ proposed events
    unmoved = refl
