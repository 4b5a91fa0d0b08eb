-- ===== src/Sequencer/Reactor/Chains/Whole.antt =====
-- A chain reaches the batch whole or not at all.
use my_ledger.Common.{
  subst, ℕ, suc, ◌≡◌, refl, sym, ◌∙◌, ap, arith, Option, none, some, List, [], ◌∷◌, ◌++◌,
  append-nil, append_assoc, push_back, length,
}
use my_ledger.Base.Error.{LedgerError, Result, ok, err}
use my_ledger.Base.Effect.{Effect}
use my_ledger.Sequencer.Rules.Linked.{LinkedChain, LinkedScratch}
use my_ledger.Sequencer.Rules.Linked
use my_ledger.Sequencer.State.Batcher.{Batcher, SlotId, push}
use my_ledger.Sequencer.State.Pipeline.{SlotPool, item_at}
use my_ledger.Sequencer.Reactor.{Reactor, item_of}
use my_ledger.Sequencer.Reactor.Judge.{decide}
use my_ledger.Sequencer.Reactor.Chains.{
  Judging, propose_leg, judge_leg, judge_legs, leg_decided, give_back_all, reject_chain,
  propose_chain, open_gates, starts, judge_chain_legs, decided, outcome, leg_judged,
}
use my_ledger.Sequencer.Reactor.Chains.Keeps.{
  take_keeps, decide_keeps, give_back_all_keeps, reject_all_keeps, free_gated_keeps, take_pipeline,
  decide_pipeline, decide-tx_id,
}

-- Each leg's slot is beside the effect of the transfer that stands in it.
unfoldable pub Paired : SlotPool → List SlotId → List Effect → Type 0
Paired p [] [] = Unit
Paired p [] (effect ∷ effects) = ⊥
Paired p (slot ∷ slots) [] = ⊥
Paired p (slot ∷ slots) (effect ∷ effects) =
    (effect.tx_id ≡ (item_at p slot).tx.id) × Paired p slots effects

Paired-push :
    (p : SlotPool) (slots : List SlotId) (effects : List Effect) (slot : SlotId) (effect : Effect)
    → Paired p slots effects
    → effect.tx_id ≡ (item_at p slot).tx.id
    → Paired p (push_back slots slot) (push_back effects effect)
unfolding Paired
Paired-push p [] [] slot effect all own = (own, tt)
Paired-push p [] (e ∷ effects) slot effect all own = absurd all
Paired-push p (s ∷ slots) [] slot effect all own = absurd all
Paired-push p (s ∷ slots) (e ∷ effects) slot effect all own =
    (all.0, Paired-push p slots effects slot effect all.1 own)

Paired-length :
    (p : SlotPool) (slots : List SlotId) (effects : List Effect)
    → Paired p slots effects
    → length effects ≡ length slots
unfolding Paired
Paired-length p [] [] all = refl
Paired-length p [] (e ∷ effects) all = absurd all
Paired-length p (s ∷ slots) [] all = absurd all
Paired-length p (s ∷ slots) (e ∷ effects) all = ap suc (Paired-length p slots effects all.1)

-- While the legs are judged nothing reaches the batch and no slot changes, and a chain that has not
-- failed has, for each leg judged, the effect of that leg's own transfer.
record IsJudged (start : Reactor) (legs : List SlotId) (j : Judging) : Type 0 where
  quiet : j.reactor.batcher ≡ start.batcher
  unmoved : j.reactor.pipeline ≡ start.pipeline
  complete : (j.failure ≡ none) → Paired start.pipeline.slots legs j.effects

leg_judged-IsJudged :
    (start : Reactor) (legs : List SlotId) (j : Judging) (slot : SlotId)
    (failure : Option LedgerError) (d : Reactor × Result Effect)
    → j.failure ≡ failure
    → d.0.batcher ≡ start.batcher
    → d.0.pipeline ≡ start.pipeline
    → ((effect : Effect)
        → d.1 ≡ ok effect
        → effect.tx_id ≡ (item_at start.pipeline.slots slot).tx.id)
    → IsJudged start legs j
    → IsJudged start (push_back legs slot) (leg_judged j slot failure d)
unfolding leg_decided
leg_judged-IsJudged start legs j slot none (r, ok effect) e same still own v = record {
  quiet = take_keeps r effect ∙ same;
  unmoved = take_pipeline r effect ∙ still;
  complete = λ _.
      Paired-push start.pipeline.slots legs j.effects slot effect (v.complete e) (own effect refl);
}
leg_judged-IsJudged start legs j slot none (r, err x) e same still own v = record {
  quiet = same;
  unmoved = still;
  complete = λ h. absurd (ground arith);
}
leg_judged-IsJudged start legs j slot (some x) (r, d) e same still own v = record {
  quiet = same;
  unmoved = still;
  complete = λ h. absurd (ground arith);
}

judge_leg-IsJudged :
    (start : Reactor) (legs : List SlotId) (j : Judging) (slot : SlotId)
    → IsJudged start legs j
    → IsJudged start (push_back legs slot) (judge_leg j slot)
unfolding judge_leg
judge_leg-IsJudged start legs j slot v =
    leg_judged-IsJudged start legs j slot j.failure
      (decide j.reactor slot (item_of j.reactor slot) (some j.scratch)) refl
      (decide_keeps j.reactor slot (item_of j.reactor slot) (some j.scratch) ∙ v.quiet)
      (decide_pipeline j.reactor slot (item_of j.reactor slot) (some j.scratch) ∙ v.unmoved)
      (λ effect judged.
        decide-tx_id j.reactor slot (item_of j.reactor slot) (some j.scratch) effect judged
        ∙ ap (λ pipeline. (item_at pipeline.slots slot).tx.id) v.unmoved)
      v

judge_legs-IsJudged :
    (start : Reactor) (before : List SlotId) (j : Judging) (slots : List SlotId)
    → IsJudged start before j
    → IsJudged start (before ++ slots) (judge_legs j slots)
unfolding judge_legs
judge_legs-IsJudged start before j [] v = rw (append-nil before) v
judge_legs-IsJudged start before j (slot ∷ slots) v = rw⁻¹ (append_assoc before (slot ∷ []) slots) (
    judge_legs-IsJudged start (push_back before slot) (judge_leg j slot) slots
      (judge_leg-IsJudged start before j slot v))

propose_chain_lem :
    (r : Reactor) (effects : List Effect) (slots : List SlotId) (now : ℕ)
    → length effects ≡ length slots
    → ((propose_chain r effects slots now).batcher.effects ≡ r.batcher.effects ++ effects)
      × ((propose_chain r effects slots now).batcher.slots ≡ r.batcher.slots ++ slots)
unfolding propose_chain push
propose_chain_lem r [] [] now e =
    (sym (append-nil r.batcher.effects), sym (append-nil r.batcher.slots))
propose_chain_lem r [] (s ∷ slots) now e = absurd (omega arith)
propose_chain_lem r (x ∷ effects) [] now e = absurd (omega arith)
propose_chain_lem r (x ∷ effects) (s ∷ slots) now e =
    let later = propose_chain_lem (propose_leg r x s now) effects slots now (omega arith) in
    (
      later.0 ∙ append_assoc r.batcher.effects (x ∷ []) effects,
      later.1 ∙ append_assoc r.batcher.slots (s ∷ []) slots,
    )

open_gates_keeps : (r : Reactor) (chain : LinkedChain) → (open_gates r chain).batcher ≡ r.batcher
unfolding open_gates
open_gates_keeps r chain =
    free_gated_keeps (record r { linked = Linked.open_gates r.linked chain.id }) chain.gated

-- How a chain of those legs, whose transfers stand in a pool, leaves the batch: as it was where the chain
-- has failed, and with all of its legs where it has not.
pub IsWhole : SlotPool → Batcher → List SlotId → Option LedgerError → Batcher → Type 0
IsWhole p b legs (some failure) b' = b' ≡ b
IsWhole p b legs none b' =
    (effects : List Effect) × Paired p legs effects
    × (b'.effects ≡ b.effects ++ effects)
    × (b'.slots ≡ b.slots ++ legs)

-- What the judgment of a chain's legs comes to: a failure, or none.
abbrev pub chain_failure : Reactor → LinkedChain → Option LedgerError
chain_failure r chain = let j = judge_legs (starts r chain) chain.legs in outcome j j.failure

decided-IsWhole :
    (r : Reactor) (j : Judging) (chain : LinkedChain) (now : ℕ) (failure : Option LedgerError)
    → outcome j j.failure ≡ failure
    → IsJudged r chain.legs j
    → IsWhole r.pipeline.slots r.batcher chain.legs failure (decided j chain now failure).batcher
unfolding IsWhole reject_chain
decided-IsWhole r j chain now (some e) h v =
    reject_all_keeps (give_back_all j.reactor j.effects) chain.legs e
    ∙ give_back_all_keeps j.reactor j.effects
    ∙ v.quiet
decided-IsWhole r j chain now none h v =
    let paired = v.complete (not_failed j j.failure refl h) in
    let complete = Paired-length r.pipeline.slots chain.legs j.effects paired in
    let proposed = propose_chain_lem j.reactor j.effects chain.legs now complete in
    (
      j.effects,
      paired,
      proposed.0 ∙ ap (λ b. b.effects ++ j.effects) v.quiet,
      proposed.1 ∙ ap (λ b. b.slots ++ chain.legs) v.quiet,
    )
  where
    not_failed :
        (j : Judging) (failure : Option LedgerError)
        → j.failure ≡ failure
        → outcome j failure ≡ none
        → j.failure ≡ none
    not_failed j none e h = e
    not_failed j (some x) e h = absurd (ground arith)

IsJudged-judge_legs_all :
    (r : Reactor) (chain : LinkedChain)
    → IsJudged r chain.legs (judge_legs (starts r chain) chain.legs)
unfolding Paired
IsJudged-judge_legs_all r chain =
    judge_legs-IsJudged r [] (starts r chain) chain.legs
      (record { quiet = refl; unmoved = refl; complete = λ _. tt })

-- All or nothing: where the judgment of its legs comes to a failure, a chain leaves the open batch exactly
-- as it was, and otherwise it adds one effect for each of its legs, in the order of the legs and each made
-- from the transfer of its leg, with the legs' slots beside them.
pub judge_chain_legs-IsWhole :
    (r : Reactor) (chain : LinkedChain) (now : ℕ)
    → IsWhole r.pipeline.slots r.batcher chain.legs
        (chain_failure r chain)
        (judge_chain_legs r chain now).batcher
unfolding judge_chain_legs
judge_chain_legs-IsWhole r chain now =
    let j = judge_legs (starts r chain) chain.legs in
    let d = decided j chain now (outcome j j.failure) in
    subst (IsWhole r.pipeline.slots r.batcher chain.legs (chain_failure r chain))
      (sym (open_gates_keeps d chain))
      (decided-IsWhole r j chain now (outcome j j.failure) refl (IsJudged-judge_legs_all r chain))
