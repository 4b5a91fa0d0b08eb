-- ===== src/Sequencer/Reactor/Apply/Sealed.antt =====
-- sequencer/src/reactor/apply.rs: an answer of consensus that belongs to no batch, or not to the oldest.
use my_ledger.Common.{
  ◌≡◌, ◌≢◌, refl, ◌∙◌, ap, arith, true, false, Option, none, some, List, [], ◌∷◌, ◌==◌,
  if◌then◌else◌,
}
use my_ledger.Base.Ports.Raft.{RaftCommit}
use my_ledger.Sequencer.State.Batcher.{InFlightBatch, next_committed}
use my_ledger.Sequencer.State.Safety.{Safety, seal_applies}
use my_ledger.Sequencer.State.Safety.Laws.{SafetyOp, run, run_sealed_from}
use my_ledger.Sequencer.Reactor.{Reactor, seal}
use my_ledger.Sequencer.Reactor.Apply.{apply, on_commit, paired}

apply_sealed :
    (r : Reactor) (commits : List RaftCommit) → r.safety.applies_sealed ≡ true → apply r commits ≡ r
unfolding apply
apply_sealed r [] sealed = refl
apply_sealed r (commit ∷ commits) sealed = rw sealed refl

-- No proposal is in flight, or the oldest is another batch than the one answered.
abbrev pub IsMismatched : Option InFlightBatch → RaftCommit → Type 0
IsMismatched none commit = Unit {0}
IsMismatched (some batch) commit = batch.batch_id ≢ commit.batch_id

paired_mismatched :
    (r : Reactor) (commit : RaftCommit) (batch : Option InFlightBatch)
    → IsMismatched batch commit
    → paired r commit batch ≡ record r { safety = (seal_applies r.safety).0 }
unfolding seal
paired_mismatched r commit none apart = refl
paired_mismatched r commit (some batch) apart = rw (differ apart) refl
  where
    differ : batch.batch_id ≢ commit.batch_id → (batch.batch_id == commit.batch_id) ≡ false
    differ apart = ground (arith, apart)

seals : (s : Safety) → (seal_applies s).0.applies_sealed ≡ true
unfolding seal_applies
seals s = refl

stops :
    (r : Reactor) (commit : RaftCommit) (commits : List RaftCommit)
    → r.safety.applies_sealed ≡ false
    → IsMismatched (next_committed r.batcher).1 commit
    → apply r (commit ∷ commits)
      ≡ record r { batcher = (next_committed r.batcher).0; safety = (seal_applies r.safety).0 }
unfolding apply on_commit
stops r commit commits unsealed apart =
    let left = record r { batcher = (next_committed r.batcher).0 } in
    let one = paired_mismatched left commit (next_committed r.batcher).1 apart in
    let rest =
      apply_sealed (record left { safety = (seal_applies r.safety).0 }) commits (seals r.safety) in
    ap (λ sealed. if sealed then r else apply (on_commit r commit) commits) unsealed
    ∙ ap (λ r. apply r commits) one
    ∙ rest

-- On a node that is not sealed, an answer that is not for the oldest proposal in flight, or for none, moves
-- no account and no lane and answers nobody: it takes the proposal it was paired with out of flight and
-- seals the apply path, and of the answers behind it none is looked at. Nothing that is done to the safety
-- state afterwards, clearing the fail-stop included, lets any later answer be applied.
pub apply_mismatched :
    (r : Reactor) (commit : RaftCommit) (commits later : List RaftCommit) (ops : List SafetyOp)
    → r.safety.applies_sealed ≡ false
    → IsMismatched (next_committed r.batcher).1 commit
    → let stopped = apply r (commit ∷ commits) in
      let after = record stopped { safety = run stopped.safety ops } in
      (stopped
        ≡ record r { batcher = (next_committed r.batcher).0; safety = (seal_applies r.safety).0 })
      × (apply after later ≡ after)
apply_mismatched r commit commits later ops unsealed apart =
    let stopped = stops r commit commits unsealed apart in
    (
      stopped,
      apply_sealed _ later (
          run_sealed_from (apply r (commit ∷ commits)).safety ops
            (ap (λ r. r.safety.applies_sealed) stopped ∙ seals r.safety)),
    )
