-- ===== src/Sequencer/State/Expiry.antt =====
-- sequencer/src/state/expiry.rs: the expiry voids that wait for a slot.
use my_ledger.Common.{
  ℕ, Bool, true, false, Option, none, some, List, [], ◌∷◌, ltb, leb, length, push_back,
  if◌then◌else◌,
}
use my_ledger.Base.Transfer.{Transfer}

pub record ExpiryQueue : Type 0 where
  pub waiting : List Transfer
  pub limit : ℕ

abbrev pub new_expiry : ℕ → ExpiryQueue
new_expiry limit = record { waiting = []; limit = limit }

unfoldable pub park : ExpiryQueue → Transfer → ExpiryQueue × Bool
park q void =
    if leb q.limit (length q.waiting)
    then (q, false)
    else (record q { waiting = push_back q.waiting void }, true)

abbrev take_from : ExpiryQueue → List Transfer → ExpiryQueue × Option Transfer
take_from q [] = (q, none)
take_from q (void ∷ rest) = (record q { waiting = rest }, some void)

unfoldable pub take : ExpiryQueue → ExpiryQueue × Option Transfer
take q = take_from q q.waiting

unfoldable pub has_room : ExpiryQueue → Bool
has_room q = ltb (length q.waiting) q.limit
