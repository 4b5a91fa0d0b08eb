-- ===== src/Sequencer/Rules/Linked/Readiness.antt =====
-- When a chain is judged, and what is freed when it has been.
use my_ledger.Common.{
  ℕ, zero, suc, ◌≡◌, ◌≢◌, arith, Option, none, some, List, [], ◌∷◌, ◌==◌, ==_iff, inl, inr, ◌⊎◌,
  Bool-cases,
}
use my_ledger.Common.Map.{Map, lookup, insert}
use my_ledger.Base.Ids.{AcctHandle, LinkedChainId}
use my_ledger.Sequencer.Rules.Linked.{
  LinkedChain, LinkedChains, leg_ready, open_gates, drop_gates, gate_for,
}

-- The results of the legs of a chain arrive, one after the other.
unfoldable pub ready_many : LinkedChains → LinkedChainId → ℕ → List (Option LinkedChain)
ready_many l id zero = []
ready_many l id (suc n) = let ready = leg_ready l id in ready.1 ∷ ready_many ready.0 id n

after_ready : LinkedChains → LinkedChainId → LinkedChain → ℕ → LinkedChains
after_ready l id c n = record l {
  open_chain = none;
  closed_chains = insert id (record c { outstanding = n }) l.closed_chains;
}

lookup-drop_gates :
    (gates : Map LinkedChainId) (id gate : LinkedChainId) (lane : AcctHandle)
    → lookup lane gates ≡ some gate
    → id ≢ gate
    → lookup lane (drop_gates gates id) ≡ some gate
unfolding lookup drop_gates
lookup-drop_gates [] id gate lane e h = absurd (ground arith)
lookup-drop_gates ((l, g) ∷ rest) id gate lane e h =
    ground (arith, lookup-drop_gates rest id gate lane)

none_left :
    (gates : Map LinkedChainId) (id : LinkedChainId) (lane : AcctHandle)
    → lookup lane (drop_gates gates id) ≢ some id
unfolding lookup drop_gates
none_left [] id lane h = ground arith
none_left ((l, g) ∷ rest) id lane h = ground (arith, none_left rest id lane)

-- Once a chain has been judged, no lane waits for it any more, and every lane that waits for another
-- chain still does.
pub open_gates_lem :
    (l : LinkedChains) (id gate : LinkedChainId) (lane : AcctHandle)
    → gate_for l lane ≡ some gate
    → (gate_for (open_gates l id) lane ≢ some id)
      × ((id ≡ gate) ⊎ (gate_for (open_gates l id) lane ≡ some gate))
unfolding gate_for open_gates
open_gates_lem l id gate lane e = (
  none_left l.gates id lane,
  elim (Bool-cases (id == gate)) [
    | inl same ↦ inl ((==_iff id gate).0 same)
    | inr differs ↦ inr (lookup-drop_gates l.gates id gate lane e (ground arith))
  ],
)
