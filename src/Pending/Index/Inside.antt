-- ===== src/Pending/Index/Inside.antt =====
-- Every place that a probe answers is a slot of the table.
use my_ledger.Common.{
  ℕ, ◌%◌, ◌<◌, ◌^◌, arith, Bool, not, ◌&&◌, ◌==◌, either_branch, Option, none, some, List, [], ◌∷◌,
  length, All, All-append, option_or,
}
use my_ledger.Base.Ids.{TxId}
use my_ledger.Pending.Address.{RecordAddr}
use my_ledger.Pending.Index.Word.{empty, fingerprint_of, address_of, is_ambiguous}
use my_ledger.Pending.Index.{HoldTable, Place, ways, slot_word}
use my_ledger.Pending.Index.Cascade.{Hasher, home_of, fingerprint_for}
use my_ledger.Pending.Index.Keys.{
  Candidate, candidates, hits, resolve, first_verified, found_in, slot_at, first_way, points_in,
  settled, find,
}
use my_ledger.Pending.Index.Shape.{IsSized, IsPlace, alternate-lt, home_of-lt}
use my_ledger.Pending.Index.Writes.{AreWays, ways-AreWays}

-- Where a key's entries are looked for and found.
module _ (h : Hasher) (t : HoldTable) (s : IsSized t) where
  abbrev pub IsInside : Candidate → Type 0
  IsInside c = IsPlace t c.at

  abbrev pub IsPlaceOf : Option Place → Type 0
  IsPlaceOf none = Unit
  IsPlaceOf (some at) = IsPlace t at

  hits-IsInside :
      (fingerprint bucket : ℕ) (rest : List ℕ)
      → bucket < length t.buckets
      → AreWays rest
      → All IsInside (hits h t fingerprint bucket rest)
  unfolding hits
  hits-IsInside fingerprint bucket [] inside in_range = tt
  hits-IsInside fingerprint bucket (way ∷ rest) inside in_range =
      let later = hits-IsInside fingerprint bucket rest inside in_range.1 in
      either_branch (All IsInside)
        (not (slot_word t (bucket, way) == empty)
          && fingerprint_of (slot_word t (bucket, way)) == fingerprint)
        (record { address = address_of (slot_word t (bucket, way)); at = (bucket % 2 ^ 32, way) }
          ∷ hits h t fingerprint bucket rest)
        _ ((omega (arith, s.narrow), in_range.0), later) later

  pub candidates-IsInside : (key : TxId) → All IsInside (candidates h t key)
  unfolding candidates
  candidates-IsInside key =
      All-append IsInside (hits h t (fingerprint_for h key) (home_of h t key) ways) _
        (hits-IsInside (fingerprint_for h key) (home_of h t key) ways (home_of-lt h t key s)
          ways-AreWays)
        (hits-IsInside (fingerprint_for h key) _ ways
          (alternate-lt h t (home_of h t key) (fingerprint_for h key) s (home_of-lt h t key s))
          ways-AreWays)

  first_verified-IsInside :
      (verify : RecordAddr → Bool) (cs : List Candidate)
      → All IsInside cs
      → IsPlaceOf (first_verified h verify cs)
  unfolding first_verified
  first_verified-IsInside verify [] all = tt
  first_verified-IsInside verify (c ∷ rest) all =
      either_branch IsPlaceOf (verify c.address) _ _ all.0
        (first_verified-IsInside verify rest all.1)

  found-IsInside :
      (verify : RecordAddr → Bool) (cs : List Candidate)
      → All IsInside cs
      → IsPlaceOf (settled h verify (found_in h t cs))
  found-IsInside verify [] all = tt
  found-IsInside verify (c ∷ []) all =
      either_branch (λ f. IsPlaceOf (settled h verify f)) (is_ambiguous (slot_word t c.at)) _ _
        (first_verified-IsInside verify (c ∷ []) all) all.0
  found-IsInside verify (c ∷ d ∷ rest) all = first_verified-IsInside verify (c ∷ d ∷ rest) all

  pub resolve-IsInside :
      (key : TxId) (verify : RecordAddr → Bool) → IsPlaceOf (resolve h t key verify)
  unfolding resolve find
  resolve-IsInside key verify = found-IsInside verify (candidates h t key) (candidates-IsInside key)

  first_way-IsInside :
      (addr : RecordAddr) (bucket : ℕ) (rest : List ℕ)
      → bucket < length t.buckets
      → AreWays rest
      → IsPlaceOf (first_way h t addr bucket rest)
  unfolding first_way
  first_way-IsInside addr bucket [] inside in_range = tt
  first_way-IsInside addr bucket (way ∷ rest) inside in_range =
      either_branch IsPlaceOf (points_in t addr (bucket, way)) _ _ (inside, in_range.0)
        (first_way-IsInside addr bucket rest inside in_range.1)

  or-IsInside : (a b : Option Place) → IsPlaceOf a → IsPlaceOf b → IsPlaceOf (option_or a b)
  or-IsInside none b p q = q
  or-IsInside (some at) b p q = p

  pub slot_at-IsInside : (key : TxId) (addr : RecordAddr) → IsPlaceOf (slot_at h t key addr)
  unfolding slot_at
  slot_at-IsInside key addr =
      or-IsInside _ _
        (first_way-IsInside addr (home_of h t key) ways (home_of-lt h t key s) ways-AreWays)
        (first_way-IsInside addr _ ways
          (alternate-lt h t (home_of h t key) (fingerprint_for h key) s (home_of-lt h t key s))
          ways-AreWays)
