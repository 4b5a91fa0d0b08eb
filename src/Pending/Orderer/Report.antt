-- ===== src/Pending/Orderer/Report.antt =====
-- pending/src/orderer.rs, `next_due` and `behind_heads`: what the orderer says of its lanes.
use my_ledger.Common.{ℕ, ◌+◌, ◌-◌, min, Option, none, some, List, [], ◌∷◌, if◌then◌else◌, is_some}
use my_ledger.Common.Map.{Map, lookup}
use my_ledger.Base.Ids.{AccountId, Seq}
use my_ledger.Pending.Orderer.{Orderer, Lane, Held, release_seq, head_of}

abbrev pub earliest : Option ℕ → Option ℕ → Option ℕ
earliest none other = other
earliest (some a) none = some a
earliest (some a) (some b) = some (min a b)

module _ {ℓ} {A : Type ℓ} where
  abbrev pub due_at : Option (Held A) → Option ℕ
  due_at none = none
  due_at (some held) = some held.ready_at

  abbrev pub next_of : Lane A → Option Seq → Option ℕ
  next_of lane none = none
  next_of lane (some seq) = due_at (head_of lane seq)

  abbrev pub next_in : Option (Lane A) → Option ℕ
  next_in none = none
  next_in (some lane) = next_of lane (release_seq lane)

  unfoldable pub due_among : Map (Lane A) → List AccountId → Option ℕ
  due_among lanes [] = none
  due_among lanes (id ∷ ids) = earliest (next_in (lookup id lanes)) (due_among lanes ids)

  unfoldable pub next_due : Orderer A → Option ℕ
  next_due o = due_among o.lanes o.rotation

  abbrev releasable : Option (Lane A) → ℕ
  releasable none = 0
  releasable (some lane) = if is_some (release_seq lane) then 1 else 0

  count_releasable : Map (Lane A) → List AccountId → ℕ
  count_releasable lanes [] = 0
  count_releasable lanes (id ∷ ids) = releasable (lookup id lanes) + count_releasable lanes ids

  -- Subtraction stops at zero.
  unfoldable pub behind_heads : Orderer A → ℕ
  unfolding count_releasable
  behind_heads o = o.held - count_releasable o.lanes o.rotation
