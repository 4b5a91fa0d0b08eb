-- ===== src/Pending/Index/Keys/Kept.antt =====
-- What an insert does to the entries of every key.
use my_ledger.Common.{
  ℕ, ◌+◌, ◌^◌, ◌<◌, ◌≡◌, ◌≢◌, refl, ap, subst, ◌∙◌, arith, ◌&&◌, ◌||◌, ◌==◌, if◌then◌else◌, Option,
  none, some, List, [], ◌∷◌, All,
}
use my_ledger.Base.Ids.{TxId}
use my_ledger.Pending.Address.{RecordAddr}
use my_ledger.Pending.Index.Word.{
  Slot, pack, mark, fingerprint_of, address_of, is_ambiguous, fingerprint_from,
}
use my_ledger.Pending.Index.{HoldTable, slot_word, set_slot}
use my_ledger.Pending.Index.Cascade.{Hasher, alternate, home_of, fingerprint_for, place}
use my_ledger.Pending.Index.Cascade.Pairs.{
  is_entry, entries, placed_at, Settled, place-entries, in_pair-set_slot,
}
use my_ledger.Pending.Index.Keys.{
  Candidate, candidates, mark_all, mark_clashes, new_slot, homeless, insert_new,
}
use my_ledger.Pending.Index.Shape.{
  IsSized, IsPlace, alternate-ne, alternate-mask, home_of-lt, mask-set_slot, length-set_slot,
  set_slot-IsSized,
}
use my_ledger.Pending.Index.Writes.{IsSized-Closed}
use my_ledger.Pending.Index.Operations.{mark_clashes-Closed}
use my_ledger.Pending.Index.Inside.{candidates-IsInside}

fingerprint_for-ne : (h : Hasher) (key : TxId) → fingerprint_for h key ≢ 0
unfolding fingerprint_for fingerprint_from
fingerprint_for-ne h key = ground arith

-- Marking a slot changes neither its fingerprint nor its address.
is_entry-mark : (f a : ℕ) (w : Slot) → f ≢ 0 → is_entry f a (mark w) ≡ is_entry f a w
unfolding mark is_ambiguous fingerprint_of address_of
is_entry-mark f a w nonzero = ground arith

is_entry-pack :
    (f f' a a' : ℕ)
    → f ≢ 0
    → f < 2 ^ 16
    → a < 2 ^ 47
    → is_entry f' a' (pack f a) ≡ (if f == f' && a == a' then 1 else 0)
unfolding pack fingerprint_of address_of
is_entry-pack f f' a a' nonzero narrow low = ground arith

fingerprint_of-pack : (f a : ℕ) → f < 2 ^ 16 → fingerprint_of (pack f a) ≡ f
unfolding pack fingerprint_of
fingerprint_of-pack f a narrow = omega arith

fingerprint_of-mark : (w : Slot) → fingerprint_of (mark w) ≡ fingerprint_of w
unfolding mark is_ambiguous fingerprint_of
fingerprint_of-mark w = ground arith

fingerprint_of-new_slot :
    (h : Hasher) (cs : List Candidate) (f a : ℕ)
    → f < 2 ^ 16
    → fingerprint_of (new_slot h cs (pack f a)) ≡ f
fingerprint_of-new_slot h [] f a narrow = fingerprint_of-pack f a narrow
fingerprint_of-new_slot h (c ∷ cs) f a narrow =
    fingerprint_of-mark (pack f a) ∙ fingerprint_of-pack f a narrow

is_entry-new_slot :
    (h : Hasher) (cs : List Candidate) (f a : ℕ) (w : Slot)
    → f ≢ 0
    → is_entry f a (new_slot h cs w) ≡ is_entry f a w
is_entry-new_slot h [] f a w nonzero = refl
is_entry-new_slot h (c ∷ cs) f a w nonzero = is_entry-mark f a w nonzero

fingerprint_for-lt :
    (h : Hasher) (key : TxId) → h.of_key key < 2 ^ 64 → fingerprint_for h key < 2 ^ 16
unfolding fingerprint_for fingerprint_from
fingerprint_for-lt h key wide = ground arith

-- The slots in a key's two buckets that hold its fingerprint with an address.
module _ (h : Hasher) (t0 : HoldTable) (key : TxId) (addr : RecordAddr) where
  abbrev apart : home_of h t0 key ≢ alternate h t0 (home_of h t0 key) (fingerprint_for h key)
  apart = alternate-ne h t0 (home_of h t0 key) (fingerprint_for h key)

  -- In a table of the same mask as `t0`.
  abbrev pub copies : HoldTable → ℕ
  copies = entries h t0 (fingerprint_for h key) addr (home_of h t0 key) apart

  abbrev at_own : ℕ → Slot → ℕ
  at_own = placed_at h t0 (fingerprint_for h key) addr (home_of h t0 key) apart

  mark-copies :
      (t : HoldTable) (b way : ℕ)
      → IsPlace t (b, way)
      → IsSized t
      → copies (set_slot t (b, way) (mark (slot_word t (b, way)))).0 ≡ copies t
  mark-copies t b way inside s =
      let w = slot_word t (b, way) in
      omega (
        arith,
        in_pair-set_slot (is_entry (fingerprint_for h key) addr) (home_of h t0 key) _ apart t b way
            (mark w) inside s,
        ap
            (λ n.
              if b == home_of h t0 key
                || b == alternate h t0 (home_of h t0 key) (fingerprint_for h key)
              then n
              else 0)
            (is_entry-mark (fingerprint_for h key) addr w (fingerprint_for-ne h key)),
      )

  mark_all-copies :
      (t : HoldTable) (cs : List Candidate)
      → All (λ c. IsPlace t c.at) cs
      → IsSized t
      → copies (mark_all h t cs) ≡ copies t
  unfolding mark_all
  mark_all-copies t [] all s = refl
  mark_all-copies t (c ∷ rest) all s =
      let w = mark (slot_word t c.at) in
      mark_all-copies (set_slot t c.at w).0 rest (rw (length-set_slot t c.at w) all.1)
        (set_slot-IsSized t c.at w all.0.0 s)
      ∙ mark-copies t c.at.0 c.at.1 all.0 s

  mark_clashes-copies :
      (t : HoldTable) (cs : List Candidate)
      → All (λ c. IsPlace t c.at) cs
      → IsSized t
      → copies (mark_clashes h t cs) ≡ copies t
  mark_clashes-copies t [] all s = refl
  mark_clashes-copies t (c ∷ rest) all s = mark_all-copies t (c ∷ rest) all s

mask-mark_all : (h : Hasher) (t : HoldTable) (cs : List Candidate) → (mark_all h t cs).mask ≡ t.mask
unfolding mark_all
mask-mark_all h t [] = refl
mask-mark_all h t (c ∷ rest) =
    mask-mark_all h (set_slot t c.at (mark (slot_word t c.at))).0 rest
    ∙ mask-set_slot t c.at (mark (slot_word t c.at))

mask-mark_clashes :
    (h : Hasher) (t : HoldTable) (cs : List Candidate) → (mark_clashes h t cs).mask ≡ t.mask
mask-mark_clashes h t [] = refl
mask-mark_clashes h t (c ∷ rest) = mask-mark_all h t (c ∷ rest)

-- What the new entry adds to the copies of a key at an address.
abbrev pub gained : Hasher → HoldTable → TxId → RecordAddr → TxId → RecordAddr → ℕ
gained h t key addr other there =
    let home = home_of h t other in
    if home_of h t key == home || home_of h t key == alternate h t home (fingerprint_for h other)
    then if fingerprint_for h key == fingerprint_for h other && addr == there then 1 else 0
    else 0

Settled-homeless :
    (h : Hasher) (t : HoldTable) (other : TxId) (there : RecordAddr) (r : HoldTable × Option Slot)
    (n : ℕ)
    → Settled h t (fingerprint_for h other) there (home_of h t other) (apart h t other there) r n
    → (homeless h r).1 ≡ none
    → copies h t other there (homeless h r).0 ≡ n
Settled-homeless h t other there (u, none) n settled e = settled
Settled-homeless h t other there (u, some w) n settled e = absurd (ground arith)

-- An insert that finds a home changes the copies of every key at every address by what it adds itself.
pub insert_new-copies :
    (h : Hasher) (t : HoldTable) (key : TxId) (addr : RecordAddr) (other : TxId)
    (there : RecordAddr)
    → IsSized t
    → h.of_key key < 2 ^ 64
    → addr < 2 ^ 47
    → (insert_new h t key addr).1 ≡ none
    → copies h t other there (insert_new h t key addr).0
      ≡ copies h t other there t + gained h t key addr other there
unfolding insert_new
insert_new-copies h t key addr other there s wide low placed =
    let f = fingerprint_for h key in
    let fo = fingerprint_for h other in
    let home = home_of h t key in
    let far_home = home_of h t other in
    let cs = candidates h t key in
    let inside = candidates-IsInside h t s key in
    let narrow = fingerprint_for-lt h key wide in
    let marked = mark_clashes-Closed IsSized IsSized-Closed h t cs inside s in
    let t1 = mark_clashes h t cs in
    let w = new_slot h cs (pack f addr) in
    let mask = mask-mark_clashes h t cs in
    let settled =
      subst
        (λ far.
          Settled h t fo there far_home (apart h t other there) (place h t1 w home far)
            (copies h t other there t1 + at_own h t other there home w))
        (alternate-mask h t t1 home (fingerprint_of w) mask
          ∙ ap (alternate h t home) (fingerprint_of-new_slot h cs f addr narrow))
        (place-entries h t fo there far_home (apart h t other there) t1 w home
          (rw marked.1 (home_of-lt h t key s)) marked.0 mask) in
    Settled-homeless h t other there _ _ settled placed
    ∙ ap (λ n. n + at_own h t other there home w)
        (mark_clashes-copies h t other there t cs inside s)
    ∙ ap
        (λ n.
          copies h t other there t
          + (if home == far_home || home == alternate h t far_home fo then n else 0))
        (is_entry-new_slot h cs fo there (pack f addr) (fingerprint_for-ne h other)
          ∙ is_entry-pack f fo addr there (fingerprint_for-ne h key) narrow low)
