-- ===== src/Sequencer/Reactor/Chains.antt =====
-- sequencer/src/reactor/judge.rs: a linked chain is judged and proposed as one unit. The loop over the
-- chains that a gate frees is the caller's.
pub mod Keeps
pub mod Whole
use my_ledger.Common.{
  ℕ, Bool, true, false, not, Option, none, some, List, [], ◌∷◌, ◌++◌, if◌then◌else◌, inc_word,
  push_back,
}
use my_ledger.Base.Ids.{is_absent}
use my_ledger.Base.Error.{LedgerError, Result, ok, err, shared_budget_group_incomplete}
use my_ledger.Base.Effect.{Effect}
use my_ledger.Base.Ports.Pending.{HoldData}
use my_ledger.Sequencer.Rules.Budget.{BudgetCoverage, misses_a_member}
use my_ledger.Sequencer.Rules.Budget
use my_ledger.Sequencer.Rules.Linked.{LinkedChain, LinkedScratch, no_scratch}
use my_ledger.Sequencer.Rules.Linked
use my_ledger.Sequencer.State.Batcher.{SlotId}
use my_ledger.Sequencer.State.Batcher
use my_ledger.Sequencer.State.Cascade
use my_ledger.Sequencer.State.Pipeline.{linked_dep, clear_dep, is_judgeable, set_item, record_at}
use my_ledger.Sequencer.Reactor.{Reactor, item_of, take_overlays, give_back_overlays, finish}
use my_ledger.Sequencer.Reactor.Judge.{decide, rejection}

-- A chain while its legs are judged.
pub record Judging : Type 0 where
  pub reactor : Reactor
  pub effects : List Effect
  pub scratch : LinkedScratch
  pub budgets : BudgetCoverage
  pub failure : Option LedgerError

abbrev tally : BudgetCoverage → Effect → Option HoldData → BudgetCoverage
tally budgets effect none = budgets
tally budgets effect (some found) =
    if is_absent effect.budget
    then budgets
    else Budget.note budgets effect.budget effect.amount found.budget_members found.budget_remaining

-- `hold_this_chain_decided`, and the effect is kept.
pub leg_decided : Judging → Reactor → SlotId → Effect → Judging
leg_decided j r slot effect = record j {
  reactor = take_overlays r effect;
  effects = push_back j.effects effect;
  scratch = Linked.note j.scratch effect;
  budgets = tally j.budgets effect (record_at r.pipeline.slots slot);
}

abbrev pub leg_judged : Judging → SlotId → Option LedgerError → Reactor × Result Effect → Judging
leg_judged j slot none (r, ok effect) = leg_decided j r slot effect
leg_judged j slot none (r, err e) = record j { reactor = r; failure = some e }
leg_judged j slot (some _) (r, _) = record j { reactor = r }

-- Every leg consumes its place in its lane, even once the chain is doomed.
unfoldable pub judge_leg : Judging → SlotId → Judging
unfolding leg_decided
judge_leg j slot =
    leg_judged j slot j.failure (decide j.reactor slot (item_of j.reactor slot) (some j.scratch))

unfoldable pub judge_legs : Judging → List SlotId → Judging
judge_legs j [] = j
judge_legs j (slot ∷ slots) = judge_legs (judge_leg j slot) slots

unfoldable pub give_back_all : Reactor → List Effect → Reactor
give_back_all r [] = r
give_back_all r (effect ∷ effects) = give_back_all (give_back_overlays r effect) effects

unfoldable pub reject_all : Reactor → List SlotId → LedgerError → Reactor
reject_all r [] e = r
reject_all r (slot ∷ slots) e = reject_all (finish r slot (rejection e)) slots e

-- Every leg is answered with the same error and nothing reaches a batch.
unfoldable pub reject_chain : Reactor → LinkedChain → List Effect → LedgerError → Reactor
reject_chain r chain effects e = reject_all (give_back_all r effects) chain.legs e

abbrev pub propose_leg : Reactor → Effect → SlotId → ℕ → Reactor
propose_leg r effect slot now = record r {
  batcher = Batcher.push r.batcher effect slot now;
  metrics = record r.metrics { judged = inc_word 64 r.metrics.judged };
}

-- The legs enter the batch together, paired as `zip` pairs them.
unfoldable pub propose_chain : Reactor → List Effect → List SlotId → ℕ → Reactor
propose_chain r [] slots now = r
propose_chain r (effect ∷ effects) [] now = r
propose_chain r (effect ∷ effects) (slot ∷ slots) now =
    propose_chain (propose_leg r effect slot now) effects slots now

-- A shared budget group is resolved whole.
abbrev pub outcome : Judging → Option LedgerError → Option LedgerError
outcome j (some e) = some e
outcome j none = if misses_a_member j.budgets then some shared_budget_group_incomplete else none

abbrev pub decided : Judging → LinkedChain → ℕ → Option LedgerError → Reactor
decided j chain now (some e) = reject_chain j.reactor chain j.effects e
decided j chain now none = propose_chain j.reactor j.effects chain.legs now

-- One request that waited behind the chain.
abbrev free_one : Reactor → SlotId → Reactor
free_one r slot =
    let item = clear_dep (item_of r slot) linked_dep in
    let freed = record r {
      pipeline = record r.pipeline { slots = set_item r.pipeline.slots slot item };
    } in
    if is_judgeable item then record freed { cascade = Cascade.push freed.cascade slot } else freed

-- Last one first: what comes off the cascade is the order they were queued in.
unfoldable pub free_gated : Reactor → List SlotId → Reactor
free_gated r [] = r
free_gated r (slot ∷ slots) = let rest = free_gated r slots in free_one rest slot

unfoldable pub open_gates : Reactor → LinkedChain → Reactor
open_gates r chain =
    free_gated (record r { linked = Linked.open_gates r.linked chain.id }) chain.gated

abbrev pub starts : Reactor → LinkedChain → Judging
starts r chain = record {
  reactor = r;
  effects = [];
  scratch = no_scratch;
  budgets = [];
  failure = chain.failure;
}

unfoldable pub judge_chain_legs : Reactor → LinkedChain → ℕ → Reactor
judge_chain_legs r chain now =
    let j = judge_legs (starts r chain) chain.legs in
    open_gates (decided j chain now (outcome j j.failure)) chain
