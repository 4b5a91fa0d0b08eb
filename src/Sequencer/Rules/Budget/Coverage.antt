-- ===== src/Sequencer/Rules/Budget/Coverage.antt =====
-- A chain that passes the coverage check resolves every budget group it touches whole.
use my_ledger.Common.{
  ℕ, ◌≡◌, refl, arith, Bool, true, false, Option, none, some, List, [], ◌∷◌, ◌==◌, if◌then◌else◌,
  inl, inr, Bool-cases, ◌⊎◌, ◌↔◌, ◌≤◌,
}
use my_ledger.Common.Int.{eq_of_parts}
use my_ledger.Base.Ids.{Amount, BudgetGroup, absent}
use my_ledger.Base.Error.{ok}
use my_ledger.Base.Ports.Pending.{HoldView}
use my_ledger.Sequencer.Rules.Budget.{
  Tally, BudgetCoverage, note, first_leg, one_more, is_short, misses_a_member, allow_resolution,
}

-- A leg of a chain that resolves a member of a group.
pub record Leg : Type 0 where
  pub budget : BudgetGroup
  pub amount : Amount
  pub members : ℕ
  pub remaining : Amount

unfoldable pub note_all : BudgetCoverage → List Leg → BudgetCoverage
note_all ts [] = ts
note_all ts (l ∷ legs) = note_all (note ts l.budget l.amount l.members l.remaining) legs

tally_of : BudgetGroup → BudgetCoverage → Option Tally
tally_of budget [] = none
tally_of budget (t ∷ ts) =
    let rest = tally_of budget ts in if t.budget == budget then some t else rest

joins : Option Tally → Leg → Option Tally
joins none l = some (first_leg l.budget l.amount l.members l.remaining)
joins (some t) l = some (one_more t l.amount)

-- The legs of one group alone: how many there are, what they move, and what the group was first
-- reported to hold.
unfoldable pub summary : BudgetGroup → Option Tally → List Leg → Option Tally
unfolding joins
summary budget t [] = t
summary budget t (l ∷ legs) =
    let joined = summary budget (joins t l) legs in
    let apart = summary budget t legs in if l.budget == budget then joined else apart

tally_of-note :
    (ts : BudgetCoverage) (l : Leg) (budget : BudgetGroup)
    → tally_of budget (note ts l.budget l.amount l.members l.remaining)
      ≡ (if l.budget == budget then joins (tally_of budget ts) l else tally_of budget ts)
unfolding tally_of note joins
tally_of-note [] l budget = ground arith
tally_of-note (t ∷ ts) l budget = ground (arith, tally_of-note ts l budget)

tally_of-note_all :
    (ts : BudgetCoverage) (legs : List Leg) (budget : BudgetGroup)
    → tally_of budget (note_all ts legs) ≡ summary budget (tally_of budget ts) legs
unfolding note_all summary
tally_of-note_all ts [] budget = refl
tally_of-note_all ts (l ∷ legs) budget = ground (
  arith,
  tally_of-note_all (note ts l.budget l.amount l.members l.remaining) legs budget,
  tally_of-note ts l budget,
)

covered :
    (ts : BudgetCoverage) (budget : BudgetGroup) (t : Tally)
    → misses_a_member ts ≡ false
    → tally_of budget ts ≡ some t
    → is_short t ≡ false
unfolding misses_a_member tally_of
covered [] budget t h e = absurd (ground arith)
covered (x ∷ ts) budget t h e = elim (Bool-cases (x.budget == budget)) [
  | inl same ↦ ground arith
  | inr differs ↦ covered ts budget t (ground arith) (ground arith)
]

-- If a chain's coverage misses no member, then for every group that its legs touch, the number of legs
-- is the number of the group's members and what they move is all that the group still holds.
pub misses_a_member-IsWhole :
    (legs : List Leg) (budget : BudgetGroup) (t : Tally)
    → misses_a_member (note_all [] legs) ≡ false
    → summary budget none legs ≡ some t
    → (t.legs ≡ t.members) × (t.amount ≡ t.remaining)
unfolding tally_of
misses_a_member-IsWhole legs budget t h e =
    let whole = covered (note_all [] legs) budget t h (rw (tally_of-note_all [] legs budget) e) in
    (ground arith, eq_of_parts t.amount t.remaining (ground arith))

-- A resolution is allowed exactly of a hold without a group, or of the whole remainder of a hold whose
-- group has no other member or is resolved inside a chain.
pub allow_resolution_iff :
    (hold : HoldView) (amount : Amount) (in_chain : Bool)
    → (allow_resolution hold amount in_chain ≡ ok tt) ↔ (
        (hold.budget ≡ absent)
        ⊎ ((amount ≡ hold.remaining) × ((hold.budget_members ≤ 1) ⊎ (in_chain ≡ true))))
unfolding allow_resolution
allow_resolution_iff hold amount in_chain =
    (λ h. ground (arith, eq_of_parts amount hold.remaining), λ h. ground arith)
