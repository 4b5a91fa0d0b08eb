-- ===== src/Sequencer/Rules/Budget.antt =====
-- sequencer/src/rules/budget.rs: several holds draw on one budget and are resolved together.
pub mod Coverage
use my_ledger.Common.{
  ℕ, Bool, true, false, not, ◌&&◌, ◌||◌, List, [], ◌∷◌, ltb, ◌==◌, if◌then◌else◌, inc_word,
}
use my_ledger.Common.Int.{add_i64, eqb_ℤ}
use my_ledger.Base.Ids.{Amount, BudgetGroup, is_absent}
use my_ledger.Base.Error.{
  Result, ok, err, shared_budget_group_required, partial_resolution_not_allowed,
}
use my_ledger.Base.Ports.Pending.{HoldView}

-- `BudgetRules::allow_resolution`.
unfoldable pub allow_resolution : HoldView → Amount → Bool → Result (Unit {0})
allow_resolution hold amount in_chain =
    if is_absent hold.budget
    then ok tt
    else if ltb 1 hold.budget_members && not in_chain
    then err shared_budget_group_required
    else if not (eqb_ℤ amount hold.remaining)
    then err partial_resolution_not_allowed
    else ok tt

pub record Tally : Type 0 where
  pub budget : BudgetGroup
  pub legs : ℕ
  pub amount : Amount
  pub members : ℕ
  pub remaining : Amount

-- `BudgetCoverage`.
abbrev pub BudgetCoverage : Type 0
BudgetCoverage = List Tally

-- One resolved leg, with the group as the engine reported it.
abbrev pub first_leg : BudgetGroup → Amount → ℕ → Amount → Tally
first_leg budget amount members remaining = record {
  budget = budget;
  legs = 1;
  amount = amount;
  members = members;
  remaining = remaining;
}

abbrev pub one_more : Tally → Amount → Tally
one_more t amount = record t { legs = inc_word 32 t.legs; amount = add_i64 t.amount amount }

unfoldable pub note : BudgetCoverage → BudgetGroup → Amount → ℕ → Amount → BudgetCoverage
note [] budget amount members remaining = first_leg budget amount members remaining ∷ []
note (t ∷ ts) budget amount members remaining =
    let rest = note ts budget amount members remaining in
    if t.budget == budget then one_more t amount ∷ ts else t ∷ rest

abbrev pub is_short : Tally → Bool
is_short t = not (t.legs == t.members) || not (eqb_ℤ t.amount t.remaining)

unfoldable pub misses_a_member : BudgetCoverage → Bool
misses_a_member [] = false
misses_a_member (t ∷ ts) = is_short t || misses_a_member ts
