-- ===== src/Pending/Index/Writes.antt =====
-- Every operation on the table is a sequence of writes of slots: what one write keeps, they all keep.
use my_ledger.Common.{
  ℕ, zero, suc, ◌%◌, ◌<◌, arith, ◌==◌, Bool-cases, either_branch, inl, inr, Option, none, List, [],
  ◌∷◌, length, All,
}
use my_ledger.Base.Prng.{Prng, next_u64}
use my_ledger.Pending.Index.Word.{Slot, empty, fingerprint_of}
use my_ledger.Pending.Index.{HoldTable, Place, ways, slot_word, set_slot, put, put_way}
use my_ledger.Pending.Index.Cascade.{Hasher, victim, victim_from, note_hops, kick, cascade, place}
use my_ledger.Pending.Index.Shape.{
  IsSized, IsPlace, length-set_slot, set_slot-IsSized, alternate-lt,
}

-- What does not depend on the generator and on the counters that only report.
pub record Closed {ℓ} (P : HoldTable → Type ℓ) : Type ℓ where
  pub sized : (t : HoldTable) → P t → IsSized t
  pub writes : (t : HoldTable) (at : Place) (w : Slot) → IsPlace t at → P t → P (set_slot t at w).0
  pub notes :
      (t : HoldTable) (victims : Prng) (hops worst_hops ambiguous : ℕ)
      → P t
      → P (record t {
        victims = victims;
        hops = hops;
        worst_hops = worst_hops;
        ambiguous = ambiguous;
      })

abbrev pub AreWays : List ℕ → Type 0
AreWays = All (λ way. way < 4)

pub ways-AreWays : AreWays ways
ways-AreWays = (omega arith, (omega arith, (omega arith, (omega arith, tt))))

module _ {ℓ} (P : HoldTable → Type ℓ) (c : Closed P) where
  put_way-Closed :
      (t : HoldTable) (bucket : ℕ) (w : Slot) (rest : List ℕ)
      → bucket < length t.buckets
      → AreWays rest
      → P t
      → P (put_way t bucket w rest).0
  unfolding put_way
  put_way-Closed t bucket w [] inside in_range p = p
  put_way-Closed t bucket w (way ∷ rest) inside in_range p =
      elim (Bool-cases (slot_word t (bucket, way) == empty)) [
        | inl e ↦ rw e (c.writes t (bucket, way) w (inside, in_range.0) p)
        | inr e ↦ rw e (put_way-Closed t bucket w rest inside in_range.1 p)
      ]

  pub put-Closed :
      (t : HoldTable) (bucket : ℕ) (w : Slot)
      → bucket < length t.buckets
      → P t
      → P (put t bucket w).0
  unfolding put
  put-Closed t bucket w inside p = put_way-Closed t bucket w ways inside ways-AreWays p

  module _ (h : Hasher) where
    victim_from-lt :
        (t : HoldTable) (bucket came_from start : ℕ) (steps : List ℕ)
        → start < 4
        → victim_from h t bucket came_from start steps < 4
    unfolding victim_from
    victim_from-lt t bucket came_from start [] s = s
    victim_from-lt t bucket came_from start (step ∷ steps) s =
        ground (arith, victim_from-lt t bucket came_from start steps s)

    pub victim-lt : (t : HoldTable) (bucket came_from : ℕ) → (victim h t bucket came_from).1 < 4
    unfolding victim
    victim-lt t bucket came_from =
        victim_from-lt t bucket came_from ((next_u64 t.victims).1 % 4) ways (omega arith)

    pub victim-Closed :
        (t : HoldTable) (bucket came_from : ℕ) → P t → P (victim h t bucket came_from).0
    unfolding victim
    victim-Closed t bucket came_from p =
        c.notes t (next_u64 t.victims).0 t.hops t.worst_hops t.ambiguous p

    pub kick-Closed :
        (t : HoldTable) (bucket came_from : ℕ) (w : Slot)
        → bucket < length t.buckets
        → P t
        → P (kick h t bucket came_from w).table
    unfolding kick victim
    kick-Closed t bucket came_from w inside p =
        c.writes (victim h t bucket came_from).0 (bucket, (victim h t bucket came_from).1) w
          (inside, victim-lt t bucket came_from) (victim-Closed t bucket came_from p)

    pub kick-next-lt :
        (t : HoldTable) (bucket came_from : ℕ) (w : Slot)
        → bucket < length t.buckets
        → P t
        → (kick h t bucket came_from w).next < length (kick h t bucket came_from w).table.buckets
    unfolding kick victim
    kick-next-lt t bucket came_from w inside p =
        let chosen = victim h t bucket came_from in
        let swapped = set_slot chosen.0 (bucket, chosen.1) w in
        alternate-lt h swapped.0 bucket (fingerprint_of swapped.1)
          (c.sized swapped.0 (kick-Closed t bucket came_from w inside p))
          (rw (length-set_slot chosen.0 (bucket, chosen.1) w) inside)

    pub cascade-Closed :
        (left hop : ℕ) (t : HoldTable) (bucket came_from : ℕ) (w : Slot)
        → bucket < length t.buckets
        → P t
        → P (cascade h left hop t bucket came_from w).0
    unfolding cascade
    cascade-Closed zero hop t bucket came_from w inside p = p
    cascade-Closed (suc left) hop t bucket came_from w inside p =
        let k = kick h t bucket came_from w in
        let q = kick-Closed t bucket came_from w inside p in
        let next_inside = kick-next-lt t bucket came_from w inside p in
        let tried = put k.table k.next k.carried in
        either_branch (λ (r : HoldTable × Option Slot). P r.0) tried.1 (note_hops tried.0 hop, none)
          (cascade h left (suc hop) k.table k.next bucket k.carried)
          (c.notes tried.0 tried.0.victims _ _ tried.0.ambiguous
            (put-Closed k.table k.next k.carried next_inside q))
          (cascade-Closed left (suc hop) k.table k.next bucket k.carried next_inside q)

    pub place-Closed :
        (t : HoldTable) (w : Slot) (home other : ℕ)
        → home < length t.buckets
        → other < length t.buckets
        → P t
        → P (place h t w home other).0
    unfolding place
    place-Closed t w home other a b p =
        either_branch (λ (r : HoldTable × Option Slot). P r.0) (put t home w).1 _ _
          (put-Closed t home w a p)
          (either_branch (λ (r : HoldTable × Option Slot). P r.0) (put t other w).1 _ _
            (put-Closed t other w b p) (cascade-Closed t.max_hops 1 t home other w a p))

-- The shape by itself.
pub IsSized-Closed : Closed IsSized
IsSized-Closed = record {
  sized = λ t s. s;
  writes = λ t at w inside s. set_slot-IsSized t at w inside.0 s;
  notes = λ t victims hops worst_hops ambiguous s. record {
    width = s.width;
    two_or_more = s.two_or_more;
    counted = s.counted;
    masked = s.masked;
    narrow = s.narrow;
    four_each = s.four_each;
  };
}
