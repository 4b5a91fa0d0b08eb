-- ===== src/Pending/Index/Keys.antt =====
-- pending/src/index.rs: the table by transaction id.
pub mod Kept
pub mod Points
use my_ledger.Common.{
  ℕ, ◌%◌, ◌^◌, Bool, true, false, not, ◌&&◌, Option, none, some, List, [], ◌∷◌, ◌++◌, ◌==◌,
  if◌then◌else◌, inc_word, option_or, is_some,
}
use my_ledger.Base.Ids.{TxId}
use my_ledger.Pending.Address.{RecordAddr}
use my_ledger.Pending.Index.Word.{
  Slot, empty, pack, fingerprint_of, address_of, is_ambiguous, mark, pack_like,
}
use my_ledger.Pending.Index.{HoldTable, Place, ways, slot_word, set_slot}
use my_ledger.Pending.Index.Cascade.{Hasher, alternate, fingerprint_for, home_of, place}

-- What a probe turned up, in probe order.
pub record Candidate : Type 0 where
  pub address : RecordAddr
  pub at : Place

pub data Found : Type 0 where
  absent : Found
  found_at : Place → Found
  shared : List Candidate → Found

unfoldable pub points_in : HoldTable → RecordAddr → Place → Bool
points_in t addr at = not (slot_word t at == empty) && address_of (slot_word t at) == addr

module _ (h : Hasher) where
  -- A bucket number is kept in 32 bits.
  unfoldable pub hits : HoldTable → ℕ → ℕ → List ℕ → List Candidate
  hits t fingerprint bucket [] = []
  hits t fingerprint bucket (way ∷ rest) =
      let later = hits t fingerprint bucket rest in
      let slot = slot_word t (bucket, way) in
      if not (slot == empty) && fingerprint_of slot == fingerprint
      then record { address = address_of slot; at = (bucket % 2 ^ 32, way) } ∷ later
      else later

  unfoldable pub candidates : HoldTable → TxId → List Candidate
  unfolding hits
  candidates t key =
      let f = fingerprint_for h key in
      hits t f (home_of h t key) ways ++ hits t f (alternate h t (home_of h t key) f) ways

  abbrev pub found_in : HoldTable → List Candidate → Found
  found_in t [] = absent
  found_in t (c ∷ []) = if is_ambiguous (slot_word t c.at) then shared (c ∷ []) else found_at c.at
  found_in t (c ∷ d ∷ rest) = shared (c ∷ d ∷ rest)

  unfoldable pub find : HoldTable → TxId → Found
  find t key = found_in t (candidates t key)

  -- `(0..len).find(|at| verify(address(at)))`.
  unfoldable pub first_verified : (RecordAddr → Bool) → List Candidate → Option Place
  first_verified verify [] = none
  first_verified verify (c ∷ rest) =
      let later = first_verified verify rest in if verify c.address then some c.at else later

  abbrev pub settled : (RecordAddr → Bool) → Found → Option Place
  settled verify absent = none
  settled verify (found_at at) = some at
  settled verify (shared cs) = first_verified verify cs

  unfoldable pub resolve : HoldTable → TxId → (RecordAddr → Bool) → Option Place
  unfolding first_verified
  resolve t key verify = settled verify (find t key)

  abbrev pub address_at : HoldTable → Option Place → Option RecordAddr
  address_at t none = none
  address_at t (some at) = some (address_of (slot_word t at))

  unfoldable pub addr_of : HoldTable → TxId → (RecordAddr → Bool) → Option RecordAddr
  addr_of t key verify = address_at t (resolve t key verify)

  unfoldable pub first_way : HoldTable → RecordAddr → ℕ → List ℕ → Option Place
  first_way t addr bucket [] = none
  first_way t addr bucket (way ∷ rest) =
      let later = first_way t addr bucket rest in
      if points_in t addr (bucket, way) then some (bucket, way) else later

  unfoldable pub slot_at : HoldTable → TxId → RecordAddr → Option Place
  unfolding first_way
  slot_at t key addr =
      option_or (first_way t addr (home_of h t key) ways)
        (first_way t addr (alternate h t (home_of h t key) (fingerprint_for h key)) ways)

  unfoldable pub points_at : HoldTable → TxId → RecordAddr → Bool
  points_at t key addr = is_some (slot_at t key addr)

  unfoldable pub mark_all : HoldTable → List Candidate → HoldTable
  mark_all t [] = t
  mark_all t (c ∷ rest) = mark_all (set_slot t c.at (mark (slot_word t c.at))).0 rest

  -- A key that the store has never held. `some` is `Homeless`.
  abbrev pub mark_clashes : HoldTable → List Candidate → HoldTable
  mark_clashes t [] = t
  mark_clashes t (c ∷ rest) =
      let marked = mark_all t (c ∷ rest) in
      record marked { ambiguous = inc_word 64 marked.ambiguous }

  abbrev pub new_slot : List Candidate → Slot → Slot
  new_slot [] slot = slot
  new_slot (_ ∷ _) slot = mark slot

  abbrev pub homeless : HoldTable × Option Slot → HoldTable × Option RecordAddr
  homeless (t, none) = (t, none)
  homeless (t, some displaced) = (t, some (address_of displaced))

  unfoldable pub insert_new : HoldTable → TxId → RecordAddr → HoldTable × Option RecordAddr
  unfolding mark_all
  insert_new t key addr =
      let clashes = candidates t key in
      let f = fingerprint_for h key in
      homeless (
        place h (mark_clashes t clashes) (new_slot clashes (pack f addr)) (home_of h t key)
          (alternate h t (home_of h t key) f))

  abbrev pub repointed : HoldTable → Option Place → RecordAddr → HoldTable × Bool
  repointed t none addr = (t, false)
  repointed t (some at) addr = ((set_slot t at (pack_like (slot_word t at) addr)).0, true)

  unfoldable pub repoint : HoldTable → TxId → RecordAddr → (RecordAddr → Bool) → HoldTable × Bool
  repoint t key addr verify = repointed t (resolve t key verify) addr

  unfoldable pub replace : HoldTable → TxId → RecordAddr → RecordAddr → HoldTable × Bool
  replace t key old new = repointed t (slot_at t key old) new

  abbrev pub cleared : HoldTable → Option Place → HoldTable × Option RecordAddr
  cleared t none = (t, none)
  cleared t (some at) = let gone = set_slot t at empty in (gone.0, some (address_of gone.1))

  -- `HoldTable::remove`.
  unfoldable pub remove_key : HoldTable → TxId → (RecordAddr → Bool) → HoldTable × Option RecordAddr
  remove_key t key verify = cleared t (resolve t key verify)
