-- ===== src/Pending/Index/Cascade/Pairs.antt =====
-- A cascade moves an entry between its two buckets and nowhere else.
use my_ledger.Common.{
  ℕ, zero, suc, ◌+◌, ◌<◌, ◌≡◌, ◌≢◌, refl, sym, ap, subst, ◌∙◌, arith, Bool, true, ◌&&◌, ◌||◌, ◌==◌,
  ==_iff, Bool-cases, inl, inr, if◌then◌else◌, Option, none, some, List, [], ◌∷◌, length, get_or,
  set, All-get_or, sum_by, sum_by-set, get_or-set_self, get_or-set_ne,
}
use my_ledger.Pending.Index.Word.{Slot, empty, fingerprint_of, address_of}
use my_ledger.Pending.Index.{HoldTable, ways, slot_word, set_slot, put, put_way}
use my_ledger.Pending.Index.Cascade.{Hasher, alternate, victim, kick, cascade, place}
use my_ledger.Pending.Index.Shape.{
  IsSized, IsPlace, IsBucket, buckets-set_slot, mask-set_slot, alternate_twice, alternate-lt,
  alternate-mask,
}
use my_ledger.Pending.Index.Writes.{
  IsSized-Closed, AreWays, ways-AreWays, kick-Closed, kick-next-lt, victim-lt, victim-Closed,
}

-- Whether a slot holds the entry with this fingerprint and this address.
abbrev pub is_entry : ℕ → ℕ → Slot → ℕ
is_entry fingerprint address w =
    if w == empty
    then 0
    else if fingerprint_of w == fingerprint && address_of w == address
    then 1
    else 0

module _ (weight : Slot → ℕ) (home other : ℕ) (apart : home ≢ other) where
  abbrev pub in_bucket : HoldTable → ℕ → ℕ
  in_bucket t bucket = sum_by weight (get_or t.buckets bucket [])

  abbrev pub in_pair : HoldTable → ℕ
  in_pair t = in_bucket t home + in_bucket t other

  -- What a slot counts where it stands in one of the two.
  abbrev pub share : ℕ → Slot → ℕ
  share bucket w = if bucket == home || bucket == other then weight w else 0

  in_bucket-own :
      (t : HoldTable) (b way : ℕ) (w : Slot) (bucket : ℕ)
      → IsPlace t (b, way)
      → IsSized t
      → bucket ≡ b
      → in_bucket (set_slot t (b, way) w).0 bucket + weight (slot_word t (b, way))
        ≡ in_bucket t bucket + weight w
  unfolding slot_word
  in_bucket-own t b way w bucket inside s here =
      let old = get_or t.buckets b [] in
      rw (buckets-set_slot t (b, way) w, here)
        (ap (λ row. sum_by weight row + weight (get_or old way empty))
            (get_or-set_self t.buckets b (set old way w) [] inside.0)
          ∙ sum_by-set weight old way w empty
              (rw (All-get_or IsBucket t.buckets b [] s.four_each inside.0) inside.1))

  in_bucket-away :
      (t : HoldTable) (b way : ℕ) (w : Slot) (bucket : ℕ)
      → b ≢ bucket
      → in_bucket (set_slot t (b, way) w).0 bucket ≡ in_bucket t bucket
  in_bucket-away t b way w bucket away =
      rw (buckets-set_slot t (b, way) w)
        (ap (sum_by weight) (get_or-set_ne t.buckets b bucket _ [] away))

  pub in_pair-set_slot :
      (t : HoldTable) (b way : ℕ) (w : Slot)
      → IsPlace t (b, way)
      → IsSized t
      → in_pair (set_slot t (b, way) w).0 + share b (slot_word t (b, way)) ≡ in_pair t + share b w
  in_pair-set_slot t b way w inside s = ground (
    arith,
    in_bucket-own t b way w home inside s,
    in_bucket-own t b way w other inside s,
    in_bucket-away t b way w home,
    in_bucket-away t b way w other,
    apart,
  )

  offered : HoldTable × Bool → ℕ → Slot → ℕ
  offered r b w = in_pair r.0 + (if r.1 then 0 else share b w)

  share-empty : (b : ℕ) → weight empty ≡ 0 → share b empty ≡ 0
  share-empty b nothing = ground arith

  put_way-in_pair :
      (t : HoldTable) (b : ℕ) (w : Slot) (rest : List ℕ)
      → weight empty ≡ 0
      → b < length t.buckets
      → AreWays rest
      → IsSized t
      → offered (put_way t b w rest) b w ≡ in_pair t + share b w
  unfolding put_way offered
  put_way-in_pair t b w [] nothing inside in_range s = refl
  put_way-in_pair t b w (way ∷ rest) nothing inside in_range s =
      elim (Bool-cases (slot_word t (b, way) == empty)) [
        | inl free ↦ rw free (
            omega (
              arith,
              in_pair-set_slot t b way w (inside, in_range.0) s,
              ap (share b) ((==_iff (slot_word t (b, way)) empty).0 free),
              share-empty b nothing,
            ))
        | inr taken ↦ rw taken (put_way-in_pair t b w rest nothing inside in_range.1 s)
      ]

  put_done :
      (t : HoldTable) (b : ℕ) (w : Slot)
      → weight empty ≡ 0
      → b < length t.buckets
      → IsSized t
      → (put t b w).1 ≡ true
      → in_pair (put t b w).0 ≡ in_pair t + share b w
  unfolding offered put
  put_done t b w nothing inside s done =
      ground (arith, put_way-in_pair t b w ways nothing inside ways-AreWays s)

-- One entry: its fingerprint, its address and its two buckets, in a table of a given mask.
module _ (h : Hasher) (t0 : HoldTable) (fingerprint address home : ℕ)
    (apart : home ≢ alternate h t0 home fingerprint) where
  abbrev pub other : ℕ
  other = alternate h t0 home fingerprint

  abbrev pub entry : Slot → ℕ
  entry = is_entry fingerprint address

  abbrev pub entries : HoldTable → ℕ
  entries = in_pair entry home other apart

  abbrev pub placed_at : ℕ → Slot → ℕ
  placed_at = share entry home other apart

  in_either : ℕ → Bool
  in_either b = b == home || b == other

  in_either-alternate :
      (b alt : ℕ) → alt ≡ alternate h t0 b fingerprint → in_either alt ≡ in_either b
  unfolding in_either
  in_either-alternate b alt e = ground (
    arith,
    λ (p : b ≡ home). e ∙ ap (λ x. alternate h t0 x fingerprint) p,
    λ (p : b ≡ other).
        e ∙ ap (λ x. alternate h t0 x fingerprint) p ∙ alternate_twice h t0 home fingerprint,
    λ (p : alt ≡ home).
        sym (alternate_twice h t0 b fingerprint)
        ∙ ap (λ x. alternate h t0 x fingerprint) (sym e ∙ p),
    λ (p : alt ≡ other).
        sym (alternate_twice h t0 b fingerprint)
        ∙ ap (λ x. alternate h t0 x fingerprint) (sym e ∙ p)
        ∙ alternate_twice h t0 home fingerprint,
  )

  share-alternate :
      (t : HoldTable) (b : ℕ) (w : Slot)
      → t.mask ≡ t0.mask
      → placed_at (alternate h t b (fingerprint_of w)) w ≡ placed_at b w
  unfolding in_either
  share-alternate t b w same = elim (Bool-cases (fingerprint_of w == fingerprint)) [
    | inr foreign ↦ ground arith
    | inl own ↦
        let alt = alternate h t b (fingerprint_of w) in
        ap (λ here. if here then entry w else 0)
          (in_either-alternate b alt (
            alternate-mask h t0 t b (fingerprint_of w) same
            ∙ ap (alternate h t0 b) ((==_iff (fingerprint_of w) fingerprint).0 own)))
  ]

  mask-kick : (t : HoldTable) (b from : ℕ) (w : Slot) → (kick h t b from w).table.mask ≡ t.mask
  unfolding kick victim
  mask-kick t b from w = mask-set_slot (victim h t b from).0 (b, (victim h t b from).1) w

  kick-entries :
      (t : HoldTable) (b from : ℕ) (w : Slot)
      → b < length t.buckets
      → IsSized t
      → t.mask ≡ t0.mask
      → entries (kick h t b from w).table
          + placed_at (kick h t b from w).next (kick h t b from w).carried
        ≡ entries t + placed_at b w
  unfolding kick victim set_slot
  kick-entries t b from w inside s same =
      let chosen = victim h t b from in
      let inside_it : IsPlace chosen.0 (b, chosen.1) =
        (inside, victim-lt IsSized IsSized-Closed h t b from) in
      let swapped = set_slot chosen.0 (b, chosen.1) w in
      omega (
        arith,
        in_pair-set_slot entry home other apart chosen.0 b chosen.1 w inside_it
            (victim-Closed IsSized IsSized-Closed h t b from s),
        share-alternate swapped.0 b swapped.1 (mask-set_slot chosen.0 (b, chosen.1) w ∙ same),
      )

  -- Nothing is said where an entry is handed back.
  abbrev pub Settled : HoldTable × Option Slot → ℕ → Type 0
  Settled (t, none) n = entries t ≡ n
  Settled (t, some _) n = Unit

  cascade-entries :
      (left hop : ℕ) (t : HoldTable) (b from : ℕ) (w : Slot)
      → b < length t.buckets
      → IsSized t
      → t.mask ≡ t0.mask
      → Settled (cascade h left hop t b from w) (entries t + placed_at b w)
  unfolding cascade
  cascade-entries zero hop t b from w inside s same = tt
  cascade-entries (suc left) hop t b from w inside s same =
      let k = kick h t b from w in
      let sized = kick-Closed IsSized IsSized-Closed h t b from w inside s in
      let next = kick-next-lt IsSized IsSized-Closed h t b from w inside s in
      let kicked = kick-entries t b from w inside s same in
      let rest =
        cascade-entries left (suc hop) k.table k.next b k.carried next sized
          (mask-kick t b from w ∙ same) in
      elim (Bool-cases (put k.table k.next k.carried).1) [
        | inl done ↦
            rw done (
              put_done entry home other apart k.table k.next k.carried refl next sized done
              ∙ kicked)
        | inr full ↦
            rw full
              (subst (Settled (cascade h left (suc hop) k.table k.next b k.carried)) kicked rest)
      ]

  -- An entry placed at one of its own buckets joins the others of its kind there, and the entries of
  -- every other kind stay in their pairs.
  pub place-entries :
      (t : HoldTable) (w : Slot) (b : ℕ)
      → b < length t.buckets
      → IsSized t
      → t.mask ≡ t0.mask
      → Settled (place h t w b (alternate h t b (fingerprint_of w))) (entries t + placed_at b w)
  unfolding place
  place-entries t w b inside s same =
      let far = alternate h t b (fingerprint_of w) in
      elim (Bool-cases (put t b w).1) [
        | inl done ↦ rw done (put_done entry home other apart t b w refl inside s done)
        | inr full ↦ elim (Bool-cases (put t far w).1) [
          | inl done ↦
              rw (full, done)
                (put_done entry home other apart t far w refl
                    (alternate-lt h t b (fingerprint_of w) s inside) s done
                  ∙ ap (λ n. entries t + n) (share-alternate t b w same))
          | inr full_too ↦
              rw (full, full_too) (cascade-entries t.max_hops 1 t b far w inside s same)
        ]
      ]
