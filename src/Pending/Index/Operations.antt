-- ===== src/Pending/Index/Operations.antt =====
-- The operations that write, as values, and what they all keep.
use my_ledger.Common.{
  ℕ, suc, ◌+◌, ◌<◌, ◌≤◌, ◌≡◌, refl, ◌∙◌, arith, Bool, Bool-cases, inl, inr, Option, none, some,
  List, [], ◌∷◌, length, All, leb,
}
use my_ledger.Base.Ids.{TxId}
use my_ledger.Pending.Address.{RecordAddr}
use my_ledger.Pending.Index.Word.{Slot, empty, mark, pack_like}
use my_ledger.Pending.Index.{HoldTable, Place, slot_word, set_slot}
use my_ledger.Pending.Index.Cascade.{Hasher, home_of, fingerprint_for}
use my_ledger.Pending.Index.Keys.{
  Candidate, candidates, mark_all, insert_new, repoint, replace, repointed, remove_key, cleared,
}
use my_ledger.Pending.Index.Snapshot.{restore_ways, restore_bucket}
use my_ledger.Pending.Index.Shape.{IsSized, IsPlace, length-set_slot, alternate-lt, home_of-lt}
use my_ledger.Pending.Index.Keys.{mark_clashes, homeless}
use my_ledger.Pending.Index.Writes.{Closed, place-Closed}
use my_ledger.Pending.Index.Inside.{
  IsPlaceOf, candidates-IsInside, resolve-IsInside, slot_at-IsInside,
}

-- `verify` reads the record at an address and tells whether it is the key's.
pub data Op : Type 0 where
  inserts : TxId → RecordAddr → Op
  repoints : TxId → RecordAddr → (RecordAddr → Bool) → Op
  replaces : TxId → RecordAddr → RecordAddr → Op
  removes : TxId → (RecordAddr → Bool) → Op
  restores : ℕ → (a b c d : Slot) → Op

unfoldable pub step : Hasher → HoldTable → Op → HoldTable
step h t (inserts key addr) = (insert_new h t key addr).0
step h t (repoints key addr verify) = (repoint h t key addr verify).0
step h t (replaces key old new) = (replace h t key old new).0
step h t (removes key verify) = (remove_key h t key verify).0
step h t (restores at a b c d) = (restore_bucket t at (a ∷ b ∷ c ∷ d ∷ [])).0

module _ {ℓ} (P : HoldTable → Type ℓ) (c : Closed P) where
  restore_ways-Closed :
      (t : HoldTable) (bucket way : ℕ) (words : List Slot)
      → bucket < length t.buckets
      → way + length words ≤ 4
      → P t
      → P (restore_ways t bucket way words)
  unfolding restore_ways
  restore_ways-Closed t bucket way [] inside room p = p
  restore_ways-Closed t bucket way (word ∷ words) inside room p =
      restore_ways-Closed (set_slot t (bucket, way) word).0 bucket (suc way) words
        (rw (length-set_slot t (bucket, way) word) inside) (omega arith)
        (c.writes t (bucket, way) word (inside, omega arith) p)

  restore_bucket-Closed :
      (t : HoldTable) (at : ℕ) (words : List Slot)
      → length words ≡ 4
      → P t
      → P (restore_bucket t at words).0
  unfolding restore_bucket
  restore_bucket-Closed t at words four p = elim (Bool-cases (leb (length t.buckets) at)) [
    | inl out ↦ rw out p
    | inr within ↦ rw within (restore_ways-Closed t at 0 words (ground arith) (omega arith) p)
  ]

  pub mark_all-Closed :
      (h : Hasher) (t : HoldTable) (cs : List Candidate)
      → All (λ k. IsPlace t k.at) cs
      → P t
      → P (mark_all h t cs)
  unfolding mark_all
  mark_all-Closed h t [] all p = p
  mark_all-Closed h t (k ∷ rest) all p =
      mark_all-Closed h (set_slot t k.at (mark (slot_word t k.at))).0 rest
        (rw (length-set_slot t k.at (mark (slot_word t k.at))) all.1)
        (c.writes t k.at (mark (slot_word t k.at)) all.0 p)

  pub length-mark_all :
      (h : Hasher) (t : HoldTable) (cs : List Candidate)
      → length (mark_all h t cs).buckets ≡ length t.buckets
  unfolding mark_all
  length-mark_all h t [] = refl
  length-mark_all h t (k ∷ rest) =
      length-mark_all h (set_slot t k.at (mark (slot_word t k.at))).0 rest
      ∙ length-set_slot t k.at (mark (slot_word t k.at))

  pub mark_clashes-Closed :
      (h : Hasher) (t : HoldTable) (cs : List Candidate)
      → All (λ k. IsPlace t k.at) cs
      → P t
      → P (mark_clashes h t cs) × (length (mark_clashes h t cs).buckets ≡ length t.buckets)
  mark_clashes-Closed h t [] all p = (p, refl)
  mark_clashes-Closed h t (k ∷ rest) all p =
      let marked = mark_all h t (k ∷ rest) in
      (
        c.notes marked marked.victims marked.hops marked.worst_hops _
            (mark_all-Closed h t (k ∷ rest) all p),
        length-mark_all h t (k ∷ rest),
      )

  homeless-Closed : (h : Hasher) (r : HoldTable × Option Slot) → P r.0 → P (homeless h r).0
  homeless-Closed h (t, none) p = p
  homeless-Closed h (t, some w) p = p

  insert_new-Closed :
      (h : Hasher) (t : HoldTable) (key : TxId) (addr : RecordAddr)
      → P t
      → P (insert_new h t key addr).0
  unfolding insert_new
  insert_new-Closed h t key addr p =
      let s = c.sized t p in
      let cs = candidates h t key in
      let marked = mark_clashes-Closed h t cs (candidates-IsInside h t s key) p in
      homeless-Closed h _ (
        place-Closed P c h (mark_clashes h t cs) _ (home_of h t key) _
          (rw marked.1 (home_of-lt h t key s))
          (rw marked.1
            (alternate-lt h t (home_of h t key) (fingerprint_for h key) s (home_of-lt h t key s)))
          marked.0)

  repointed-Closed :
      (h : Hasher) (t : HoldTable) (s : IsSized t) (at : Option Place) (addr : RecordAddr)
      → IsPlaceOf h t s at
      → P t
      → P (repointed h t at addr).0
  repointed-Closed h t s none addr inside p = p
  repointed-Closed h t s (some at) addr inside p =
      c.writes t at (pack_like (slot_word t at) addr) inside p

  cleared-Closed :
      (h : Hasher) (t : HoldTable) (s : IsSized t) (at : Option Place)
      → IsPlaceOf h t s at
      → P t
      → P (cleared h t at).0
  cleared-Closed h t s none inside p = p
  cleared-Closed h t s (some at) inside p = c.writes t at empty inside p

  pub step-Closed : (h : Hasher) (t : HoldTable) (op : Op) → P t → P (step h t op)
  unfolding step repoint replace remove_key
  step-Closed h t (inserts key addr) p = insert_new-Closed h t key addr p
  step-Closed h t (repoints key addr verify) p =
      let s = c.sized t p in repointed-Closed h t s _ addr (resolve-IsInside h t s key verify) p
  step-Closed h t (replaces key old new) p =
      let s = c.sized t p in repointed-Closed h t s _ new (slot_at-IsInside h t s key old) p
  step-Closed h t (removes key verify) p =
      let s = c.sized t p in cleared-Closed h t s _ (resolve-IsInside h t s key verify) p
  step-Closed h t (restores at a b c' d) p = restore_bucket-Closed t at (a ∷ b ∷ c' ∷ d ∷ []) refl p
