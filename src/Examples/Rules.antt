-- ===== src/Examples/Rules.antt =====
-- sequencer/src/rules: chains of a few legs and groups of a few holds.
use my_ledger.Common.{◌≡◌, refl, arith, some, none, [], ◌∷◌}
use my_ledger.Common.Map.{lookup}
use my_ledger.Base.Ids.{LinkedChainId}
use my_ledger.Base.Ports.Pending.{HoldView, compose, no_overlay}
use my_ledger.Sequencer.Rules.Linked.{LinkedChain, LinkedChains, new_chains}
use my_ledger.Sequencer.Rules.Linked.Admission.{slots_of, terminated, terminated_lem}
use my_ledger.Examples.Data.{pair, hold_record}

abbrev grouped_hold : HoldView
grouped_hold = record (compose hold_record no_overlay) { budget = 4; budget_members = 2 }

-- Three legs where at most two are allowed.
terminated_lem_example :
    (c : LinkedChain) × (lookup 1
        (terminated (new_chains 2) (0, 10) ((0, 11) ∷ []) (0, 12)).closed_chains
      ≡ some c)
    × (c.legs ≡ 10 ∷ 11 ∷ 12 ∷ [])
    × (c.failure ≡ none)
    × ((terminated (new_chains 2) (0, 10) ((0, 11) ∷ []) (0, 12)).open_chain ≡ none)
unfolding slots_of
terminated_lem_example =
    terminated_lem (new_chains 2) (0, 10) ((0, 11) ∷ []) (0, 12) refl (omega arith)

abbrev pair_waiting : LinkedChains
pair_waiting = record (new_chains 2) {
  closed_chains = (1, pair) ∷ [];
  gates = (0, 1) ∷ (1, 3) ∷ [];
}

abbrev judged_chain : LinkedChainId
judged_chain = 1
