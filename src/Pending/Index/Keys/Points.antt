-- ===== src/Pending/Index/Keys/Points.antt =====
-- Where keys point, before an insert and after it.
use my_ledger.Common.{
  ℕ, zero, suc, ◌+◌, ◌<◌, ◌≤◌, ◌^◌, ◌≡◌, refl, ap, ◌∙◌, arith, true, inl, inr, ◌⊎◌, Option, none,
  some, [], ◌∷◌, length, get_or, All-get_or, sum_by, is_some, option_or,
}
use my_ledger.Base.Ids.{TxId}
use my_ledger.Pending.Address.{RecordAddr}
use my_ledger.Pending.Index.Word.{Slot, empty}
use my_ledger.Pending.Index.{HoldTable, Bucket, Place, ways, slot_word}
use my_ledger.Pending.Index.Cascade.{Hasher, alternate, home_of, fingerprint_for}
use my_ledger.Pending.Index.Cascade.Pairs.{is_entry}
use my_ledger.Pending.Index.Keys.{insert_new, points_at, slot_at, first_way, points_in}
use my_ledger.Pending.Index.Keys.Kept.{copies, gained, insert_new-copies}
use my_ledger.Pending.Index.Shape.{
  IsSized, IsBucket, alternate-lt, alternate-mask, home_of-lt, home_of-mask, mask-set_slot,
}
use my_ledger.Pending.Index.Writes.{Closed, IsSized-Closed}
use my_ledger.Pending.Index.Operations.{step, inserts, step-Closed}

sum_four :
    (weight : Slot → ℕ) (row : Bucket)
    → length row ≡ 4
    → sum_by weight row
      ≡ weight (get_or row 0 empty)
        + weight (get_or row 1 empty)
        + weight (get_or row 2 empty)
        + weight (get_or row 3 empty)
sum_four weight [] e = absurd (omega arith)
sum_four weight (a ∷ []) e = absurd (omega arith)
sum_four weight (a ∷ b ∷ []) e = absurd (omega arith)
sum_four weight (a ∷ b ∷ c ∷ []) e = absurd (omega arith)
sum_four weight (a ∷ b ∷ c ∷ d ∷ []) e = omega arith
sum_four weight (a ∷ b ∷ c ∷ d ∷ f ∷ rest) e = absurd (omega arith)

is_entry-points_in :
    (t : HoldTable) (f addr b way : ℕ)
    → 1 ≤ is_entry f addr (slot_word t (b, way))
    → points_in t addr (b, way) ≡ true
unfolding points_in
is_entry-points_in t f addr b way h = ground arith

first_way_finds :
    (h : Hasher) (t : HoldTable) (f addr b : ℕ)
    → IsSized t
    → b < length t.buckets
    → 1 ≤ sum_by (is_entry f addr) (get_or t.buckets b [])
    → is_some (first_way h t addr b ways) ≡ true
unfolding first_way slot_word
first_way_finds h t f addr b s inside some_there = ground (
  arith,
  is_entry-points_in t f addr b 0,
  is_entry-points_in t f addr b 1,
  is_entry-points_in t f addr b 2,
  is_entry-points_in t f addr b 3,
  sum_four (is_entry f addr) (get_or t.buckets b [])
      (All-get_or IsBucket t.buckets b [] s.four_each inside),
)

either_some :
    (a b : Option Place) → (is_some a ≡ true) ⊎ (is_some b ≡ true) → is_some (option_or a b) ≡ true
either_some none b (inr h) = h
either_some none b (inl h) = absurd (ground arith)
either_some (some x) b h = refl

copies-points_at :
    (h : Hasher) (t : HoldTable) (key : TxId) (addr : RecordAddr)
    → IsSized t
    → 1 ≤ copies h t key addr t
    → points_at h t key addr ≡ true
unfolding points_at slot_at
copies-points_at h t key addr s held = either_some _ _ (elim (one_of _ _ held) [
  | inl near ↦ inl (
      first_way_finds h t (fingerprint_for h key) addr (home_of h t key) s (home_of-lt h t key s)
        near)
  | inr far ↦ inr (
      first_way_finds h t (fingerprint_for h key) addr _ s
        (alternate-lt h t (home_of h t key) (fingerprint_for h key) s (home_of-lt h t key s)) far)
])
  where
    one_of : (a b : ℕ) → 1 ≤ a + b → (1 ≤ a) ⊎ (1 ≤ b)
    one_of zero b h = inr (omega arith)
    one_of (suc a) b h = inl (omega arith)

IsMasked : ℕ → HoldTable → Type 0
IsMasked mask t = IsSized t × (t.mask ≡ mask)

IsMasked-Closed : (mask : ℕ) → Closed (IsMasked mask)
unfolding IsMasked
IsMasked-Closed mask = record {
  sized = λ t v. v.0;
  writes = λ t at w inside v. (IsSized-Closed.writes t at w inside v.0, mask-set_slot t at w ∙ v.1);
  notes = λ t victims hops worst_hops ambiguous v.
      (IsSized-Closed.notes t victims hops worst_hops ambiguous v.0, v.1);
}

insert_new-IsMasked :
    (h : Hasher) (t : HoldTable) (key : TxId) (addr : RecordAddr)
    → IsSized t
    → IsSized (insert_new h t key addr).0 × ((insert_new h t key addr).0.mask ≡ t.mask)
unfolding step IsMasked
insert_new-IsMasked h t key addr s =
    step-Closed (IsMasked t.mask) (IsMasked-Closed t.mask) h t (inserts key addr) (s, refl)

-- The same copies, by the homes of a table of the same mask.
copies-mask :
    (h : Hasher) (t t' u : HoldTable) (key : TxId) (addr : RecordAddr)
    → t'.mask ≡ t.mask
    → copies h t' key addr u ≡ copies h t key addr u
copies-mask h t t' u key addr same =
    let f = fingerprint_for h key in
    let far =
      alternate-mask h t t' (home_of h t' key) f same
      ∙ ap (λ b. alternate h t b f) (home_of-mask h t t' key same) in
    let count : ℕ → ℕ = λ b. sum_by (is_entry f addr) (get_or u.buckets b []) in
    ap (λ b. count b + count (alternate h t' (home_of h t' key) f)) (home_of-mask h t t' key same)
    ∙ ap (λ b. count (home_of h t key) + count b) far

gained-own :
    (h : Hasher) (t : HoldTable) (key : TxId) (addr : RecordAddr) → gained h t key addr key addr ≡ 1
gained-own h t key addr = ground arith

-- The entries of a table that a key can be found by: the key's fingerprint and an address in one of the
-- key's two buckets.
abbrev pub Holds : Hasher → HoldTable → TxId → RecordAddr → Type 0
Holds h t key addr = 1 ≤ copies h t key addr t

-- After an insert that found a home, whatever the cascade moved, the new key points at its address, and
-- every key points at each address that it had an entry for.
pub insert_new-points_at :
    (h : Hasher) (t : HoldTable) (key : TxId) (addr : RecordAddr) (other : TxId)
    (there : RecordAddr)
    → IsSized t
    → h.of_key key < 2 ^ 64
    → addr < 2 ^ 47
    → (insert_new h t key addr).1 ≡ none
    → Holds h t other there ⊎ ((other ≡ key) × (there ≡ addr))
    → points_at h (insert_new h t key addr).0 other there ≡ true
insert_new-points_at h t key addr other there s wide low placed held =
    let kept = insert_new-IsMasked h t key addr s in
    let u = (insert_new h t key addr).0 in
    copies-points_at h u other there kept.0 (
      rw
        (
          copies-mask h t u u other there kept.1,
          insert_new-copies h t key addr other there s wide low placed,
        )
        (enough held))
  where
    enough :
        Holds h t other there ⊎ ((other ≡ key) × (there ≡ addr))
        → 1 ≤ copies h t other there t + gained h t key addr other there
    enough (inl before) = omega arith
    enough (inr (same, here)) = rw (same, here) (omega (arith, gained-own h t key addr))
