-- ===== src/Pending/Keyed.antt =====
-- pending/src/cache.rs: the hash maps whose keys are an object's index and an offset in it.
use my_ledger.Common.{ℕ, Bool, ◌&&◌, Option, none, some, List, [], ◌∷◌, ◌==◌, if◌then◌else◌}
use my_ledger.Pending.Store.{ObjectId}

-- An object's index and an offset.
abbrev pub Key : Type 0
Key = ObjectId × ℕ

abbrev pub eqb_key : Key → Key → Bool
eqb_key a b = a.0 == b.0 && a.1 == b.1

-- A hash map keyed by blocks.
abbrev pub KeyMap : Type 0 → Type 0
KeyMap V = List (Key × V)

module _ {V : Type 0} where
  unfoldable pub at_key : Key → KeyMap V → Option V
  at_key key [] = none
  at_key key ((k, v) ∷ rest) = if eqb_key k key then some v else at_key key rest

  unfoldable pub put_key : Key → V → KeyMap V → KeyMap V
  put_key key v [] = (key, v) ∷ []
  put_key key v ((k, old) ∷ rest) =
      if eqb_key k key then (key, v) ∷ rest else (k, old) ∷ put_key key v rest

  unfoldable pub drop_key : Key → KeyMap V → KeyMap V
  drop_key key [] = []
  drop_key key ((k, v) ∷ rest) =
      let others = drop_key key rest in if eqb_key k key then others else (k, v) ∷ others
