-- ===== src/Pending/Index/Cascade/Conserved.antt =====
-- A cascade moves entries about and loses none: what it cannot place it hands back.
use my_ledger.Common.{
  ℕ, zero, suc, ◌+◌, ◌<◌, ◌≡◌, refl, ap, ◌∙◌, arith, true, ◌==◌, ==_iff, Bool-cases, inl, inr,
  if◌then◌else◌, Option, none, some, List, [], ◌∷◌, length,
}
use my_ledger.Common.{Bool}
use my_ledger.Pending.Index.Word.{Slot, empty}
use my_ledger.Pending.Index.{HoldTable, ways, slot_word, set_slot, put, put_way}
use my_ledger.Pending.Index.Cascade.{Hasher, victim, kick, cascade, place}
use my_ledger.Pending.Index.Shape.{IsSized, IsPlace, total, total-set_word, buckets-set_slot}
use my_ledger.Pending.Index.Writes.{
  IsSized-Closed, AreWays, ways-AreWays, kick-Closed, kick-next-lt, victim-lt, victim-Closed,
}

-- What the entry that is handed back counts.
abbrev pub left_over : (Slot → ℕ) → Option Slot → ℕ
left_over weight none = 0
left_over weight (some w) = weight w

module _ (weight : Slot → ℕ) (nothing : weight empty ≡ 0) where
  total-set_slot :
      (t : HoldTable) (bucket way : ℕ) (w : Slot)
      → IsPlace t (bucket, way)
      → IsSized t
      → total weight (set_slot t (bucket, way) w).0.buckets + weight (slot_word t (bucket, way))
        ≡ total weight t.buckets + weight w
  total-set_slot t bucket way w inside s =
      ap (λ bs. total weight bs + weight (slot_word t (bucket, way)))
        (buckets-set_slot t (bucket, way) w)
      ∙ total-set_word weight t (bucket, way) w inside s.four_each

  -- What is not yet in the table after an offer.
  offered : HoldTable × Bool → Slot → ℕ
  offered r w = total weight r.0.buckets + (if r.1 then 0 else weight w)

  put_way-total :
      (t : HoldTable) (bucket : ℕ) (w : Slot) (rest : List ℕ)
      → bucket < length t.buckets
      → AreWays rest
      → IsSized t
      → offered (put_way t bucket w rest) w ≡ total weight t.buckets + weight w
  unfolding put_way offered
  put_way-total t bucket w [] inside in_range s = refl
  put_way-total t bucket w (way ∷ rest) inside in_range s =
      elim (Bool-cases (slot_word t (bucket, way) == empty)) [
        | inl free ↦ rw free (
            omega (
              arith,
              total-set_slot t bucket way w (inside, in_range.0) s,
              ap weight ((==_iff (slot_word t (bucket, way)) empty).0 free),
              nothing,
            ))
        | inr taken ↦ rw taken (put_way-total t bucket w rest inside in_range.1 s)
      ]

  put-total :
      (t : HoldTable) (bucket : ℕ) (w : Slot)
      → bucket < length t.buckets
      → IsSized t
      → offered (put t bucket w) w ≡ total weight t.buckets + weight w
  unfolding put
  put-total t bucket w inside s = put_way-total t bucket w ways inside ways-AreWays s

  put_done :
      (t : HoldTable) (bucket : ℕ) (w : Slot)
      → bucket < length t.buckets
      → IsSized t
      → (put t bucket w).1 ≡ true
      → total weight (put t bucket w).0.buckets ≡ total weight t.buckets + weight w
  unfolding offered
  put_done t bucket w inside s done = ground (arith, put-total t bucket w inside s)

  module _ (h : Hasher) where
    kick-total :
        (t : HoldTable) (bucket came_from : ℕ) (w : Slot)
        → bucket < length t.buckets
        → IsSized t
        → total weight (kick h t bucket came_from w).table.buckets
            + weight (kick h t bucket came_from w).carried
          ≡ total weight t.buckets + weight w
    unfolding kick victim set_slot
    kick-total t bucket came_from w inside s =
        let chosen = victim h t bucket came_from in
        total-set_slot chosen.0 bucket chosen.1 w
          (inside, victim-lt IsSized IsSized-Closed h t bucket came_from)
          (victim-Closed IsSized IsSized-Closed h t bucket came_from s)

    abbrev ended : HoldTable × Option Slot → ℕ
    ended r = total weight r.0.buckets + left_over weight r.1

    cascade-total :
        (left hop : ℕ) (t : HoldTable) (bucket came_from : ℕ) (w : Slot)
        → bucket < length t.buckets
        → IsSized t
        → ended (cascade h left hop t bucket came_from w) ≡ total weight t.buckets + weight w
    unfolding cascade offered
    cascade-total zero hop t bucket came_from w inside s = refl
    cascade-total (suc left) hop t bucket came_from w inside s =
        let k = kick h t bucket came_from w in
        let sized = kick-Closed IsSized IsSized-Closed h t bucket came_from w inside s in
        let next = kick-next-lt IsSized IsSized-Closed h t bucket came_from w inside s in
        let rest = cascade-total left (suc hop) k.table k.next bucket k.carried next sized in
        elim (Bool-cases (put k.table k.next k.carried).1) [
          | inl done ↦ rw done (
              omega (
                arith,
                put_done k.table k.next k.carried next sized done,
                kick-total t bucket came_from w inside s,
              ))
          | inr full ↦ rw full (rest ∙ kick-total t bucket came_from w inside s)
        ]

    place-total :
        (t : HoldTable) (w : Slot) (home other : ℕ)
        → home < length t.buckets
        → other < length t.buckets
        → IsSized t
        → ended (place h t w home other) ≡ total weight t.buckets + weight w
    unfolding place
    place-total t w home other a b s = elim (Bool-cases (put t home w).1) [
      | inl done ↦ rw done (omega (arith, put_done t home w a s done))
      | inr full ↦ elim (Bool-cases (put t other w).1) [
        | inl done ↦ rw (full, done) (omega (arith, put_done t other w b s done))
        | inr full_too ↦ rw (full, full_too) (cascade-total t.max_hops 1 t home other w a s)
      ]
    ]

-- The table is a bag of slots, counted by what is asked of a slot.
abbrev pub counted : (Slot → ℕ) → HoldTable × Option Slot → ℕ
counted weight r = total weight r.0.buckets + left_over weight r.1

-- Placing an entry, however many others are kicked out on the way, neither loses an entry nor makes
-- another: whatever is counted of slots that are not empty, the table afterwards and the entry that was
-- handed back, if one was, count together what the table before and the new entry did.
pub place-counted :
    (h : Hasher) (weight : Slot → ℕ) (t : HoldTable) (w : Slot) (home other : ℕ)
    → weight empty ≡ 0
    → IsSized t
    → home < length t.buckets
    → other < length t.buckets
    → counted weight (place h t w home other) ≡ total weight t.buckets + weight w
place-counted h weight t w home other nothing s a b =
    place-total weight nothing h t w home other a b s
