-- ===== src/Pending/Index/Snapshot/Stable.antt =====
-- A snapshot sees the table as it was when it began, whatever is written meanwhile.
use my_ledger.Common.{
  ℕ, zero, suc, ◌<◌, ◌≤◌, ◌≡◌, ◌≢◌, refl, sym, ap, subst, ◌∙◌, arith, not, ◌&&◌, ◌==◌, ==_iff,
  Bool-cases, Option-cases, inl, inr, ◌⊎◌, if◌then◌else◌, Option, none, some, List, [], ◌∷◌, length,
  get_or, set, take, drop, ltb, is_some, get_or-set_ne,
}
use my_ledger.Common.Map.{Map, lookup, lookup-insert, lookup-remove}
use my_ledger.Pending.Index.Word.{Slot}
use my_ledger.Pending.Index.{
  HoldTable, Bucket, Place, set_slot, set_word, keep_copy, count_out, count_in, slot_word, behind,
}
use my_ledger.Pending.Index.Cascade.{Hasher}
use my_ledger.Pending.Index.Shape.{IsSized, buckets-set_slot, length-set_slot, set_slot-IsSized}
use my_ledger.Pending.Index.Snapshot.{begin_snapshot, bucket_for_snapshot, read_bucket, copy_or}
use my_ledger.Pending.Index.Writes.{Closed, IsSized-Closed}
use my_ledger.Pending.Index.Operations.{Op, step, step-Closed}

shadow-count_out : (t : HoldTable) (w : Slot) → (count_out t w).shadow ≡ t.shadow
shadow-count_out t w = ground arith

shadow-count_in : (t : HoldTable) (w : Slot) → (count_in t w).shadow ≡ t.shadow
shadow-count_in t w = ground arith

shadow-set_slot :
    (t : HoldTable) (at : Place) (w : Slot) → (set_slot t at w).0.shadow ≡ (keep_copy t at.0).shadow
unfolding set_slot
shadow-set_slot t at w =
    shadow-count_in (count_out (keep_copy t at.0) (slot_word t at)) w
    ∙ shadow-count_out (keep_copy t at.0) (slot_word t at)

read-keep_copy : (t : HoldTable) (b : ℕ) → (keep_copy t b).read_through ≡ t.read_through
read-keep_copy t b = ground arith

read-count_out : (t : HoldTable) (w : Slot) → (count_out t w).read_through ≡ t.read_through
read-count_out t w = ground arith

read-count_in : (t : HoldTable) (w : Slot) → (count_in t w).read_through ≡ t.read_through
read-count_in t w = ground arith

read-set_slot :
    (t : HoldTable) (at : Place) (w : Slot) → (set_slot t at w).0.read_through ≡ t.read_through
unfolding set_slot
read-set_slot t at w =
    read-count_in (count_out (keep_copy t at.0) (slot_word t at)) w
    ∙ read-count_out (keep_copy t at.0) (slot_word t at)
    ∙ read-keep_copy t at.0

-- What a snapshot is going to see of a bucket.
abbrev seen : Map Bucket → List Bucket → ℕ → Bucket
seen shadow buckets b = copy_or (lookup b shadow) (get_or buckets b [])

-- The cursor stands at `n`, and from there on what is seen are the buckets `old`.
record IsStable (old : List Bucket) (n : ℕ) (t : HoldTable) : Type 0 where
  pub sized : IsSized t
  pub cursor : t.read_through ≡ some n
  pub same_length : length t.buckets ≡ length old
  pub as_before : (b : ℕ) → n ≤ b → seen t.shadow t.buckets b ≡ get_or old b []

lookup-keep_copy :
    (t : HoldTable) (b c : ℕ)
    → lookup c (keep_copy t b).shadow ≡ (
        if (behind t.read_through b && not (is_some (lookup b t.shadow))) && b == c
        then some (get_or t.buckets b [])
        else lookup c t.shadow)
lookup-keep_copy t b c = ground (arith, lookup-insert b c (get_or t.buckets b []) t.shadow)

seen-own :
    (t : HoldTable) (n b : ℕ) (new : List Bucket)
    → t.read_through ≡ some n
    → n ≤ b
    → seen (keep_copy t b).shadow new b ≡ seen t.shadow t.buckets b
seen-own t n b new cursor ahead =
    rw (lookup-keep_copy t b b, cursor)
      (elim (Option-cases (lookup b t.shadow)) [
        | inl none_yet ↦ rw none_yet (ground arith)
        | inr (copy, kept) ↦ rw kept (ground arith)
      ])

seen-away :
    (t : HoldTable) (b c : ℕ) (row : Bucket)
    → b ≢ c
    → seen (keep_copy t b).shadow (set t.buckets b row) c ≡ seen t.shadow t.buckets c
seen-away t b c row away =
    ground (arith, lookup-keep_copy t b c, get_or-set_ne t.buckets b c row [] away)

seen-set_slot :
    (t : HoldTable) (n : ℕ) (at : Place) (w : Slot) (c : ℕ)
    → t.read_through ≡ some n
    → n ≤ c
    → seen (set_slot t at w).0.shadow (set_slot t at w).0.buckets c ≡ seen t.shadow t.buckets c
seen-set_slot t n at w c cursor ahead =
    rw (shadow-set_slot t at w, buckets-set_slot t at w)
      (elim (Bool-cases (at.0 == c)) [
        | inl here ↦
            subst
              (λ b.
                seen (keep_copy t b).shadow (set_word t.buckets at w) c ≡ seen t.shadow t.buckets c)
              (sym ((==_iff at.0 c).0 here)) (seen-own t n c _ cursor ahead)
        | inr away ↦ seen-away t at.0 c _ (λ e. ground (arith, e))
      ])

IsStable-Closed : (old : List Bucket) (n : ℕ) → Closed (IsStable old n)
IsStable-Closed old n = record {
  sized = λ t v. v.sized;
  writes = λ t at w inside v. record {
    sized = set_slot-IsSized t at w inside.0 v.sized;
    cursor = read-set_slot t at w ∙ v.cursor;
    same_length = length-set_slot t at w ∙ v.same_length;
    as_before = λ b ahead. seen-set_slot t n at w b v.cursor ahead ∙ v.as_before b ahead;
  };
  notes = λ t victims hops worst_hops ambiguous v. record {
    sized = IsSized-Closed.notes t victims hops worst_hops ambiguous v.sized;
    cursor = v.cursor;
    same_length = v.same_length;
    as_before = v.as_before;
  };
}

-- The engine writes, and the snapshot asks for a bucket.
pub data Event : Type 0 where
  operates : Op → Event
  asks : ℕ → Event

abbrev add_answer : Option Bucket → List Bucket → List Bucket
add_answer none rest = rest
add_answer (some row) rest = row ∷ rest

-- What the snapshot was answered.
unfoldable pub answers : Hasher → HoldTable → List Event → List Bucket
answers h t [] = []
answers h t (operates op ∷ events) = answers h (step h t op) events
answers h t (asks at ∷ events) =
    let one = bucket_for_snapshot t at in add_answer one.1 (answers h one.0 events)

drop_get :
    (old : List Bucket) (n : ℕ) → n < length old → drop n old ≡ get_or old n [] ∷ drop (suc n) old
drop_get [] n h = absurd (omega arith)
drop_get (x ∷ xs) zero h = refl
drop_get (x ∷ xs) (suc n) h = drop_get xs n (omega arith)

begin_snapshot-IsStable : (t : HoldTable) → IsSized t → IsStable t.buckets 0 (begin_snapshot t)
unfolding begin_snapshot lookup
begin_snapshot-IsStable t s = record {
  sized = record {
    width = s.width;
    two_or_more = s.two_or_more;
    counted = s.counted;
    masked = s.masked;
    narrow = s.narrow;
    four_each = s.four_each;
  };
  cursor = refl;
  same_length = refl;
  as_before = λ b ahead. refl;
}

read_bucket-IsStable :
    (old : List Bucket) (n : ℕ) (t : HoldTable)
    → IsStable old n t
    → IsStable old (suc n) (read_bucket t n).0
read_bucket-IsStable old n t v = record {
  sized = record {
    width = v.sized.width;
    two_or_more = v.sized.two_or_more;
    counted = v.sized.counted;
    masked = v.sized.masked;
    narrow = v.sized.narrow;
    four_each = v.sized.four_each;
  };
  cursor = ap some (omega arith);
  same_length = v.same_length;
  as_before = λ b ahead.
      ap (λ o. copy_or o (get_or t.buckets b []))
        (lookup-remove n b t.shadow ∙ not_here n b ahead (lookup b t.shadow))
      ∙ v.as_before b (omega arith);
}
  where
    not_here : (n b : ℕ) → suc n ≤ b → (o : Option Bucket) → (if n == b then none else o) ≡ o
    not_here n b h o = ground arith

-- One request: out of turn it changes nothing, and in turn it is answered with the old bucket.
asks_cases :
    (old : List Bucket) (n : ℕ) (t : HoldTable) (at : ℕ)
    → IsStable old n t
    → (bucket_for_snapshot t at ≡ (t, none))
      ⊎ ((n < length old)
          × (bucket_for_snapshot t at ≡ ((read_bucket t n).0, some (get_or old n []))))
unfolding bucket_for_snapshot
asks_cases old n t at v = rw v.cursor (elim (Bool-cases (n == at && ltb at (length t.buckets))) [
  | inr out_of_turn ↦ inl (rw out_of_turn refl)
  | inl in_turn ↦ inr (ground (arith, v.same_length), rw in_turn (turn (ground arith)))
])
  where
    turn : n ≡ at → read_bucket t at ≡ ((read_bucket t n).0, some (get_or old n []))
    turn e =
        subst (λ m. read_bucket t m ≡ ((read_bucket t n).0, some (get_or old n []))) e
          (ap (λ row. ((read_bucket t n).0, some row)) (v.as_before n (omega arith)))

answers_from :
    (h : Hasher) (old : List Bucket) (n : ℕ) (t : HoldTable) (events : List Event)
    → IsStable old n t
    → answers h t events ≡ take (length (answers h t events)) (drop n old)
unfolding answers
answers_from h old n t [] v = refl
answers_from h old n t (operates op ∷ events) v =
    answers_from h old n (step h t op) events
      (step-Closed (IsStable old n) (IsStable-Closed old n) h t op v)
answers_from h old n t (asks at ∷ events) v = elim (asks_cases old n t at v) [
  | inl unchanged ↦ rw unchanged (answers_from h old n t events v)
  | inr (inside, answered) ↦
      let after = (read_bucket t n).0 in
      let rest = answers_from h old (suc n) after events (read_bucket-IsStable old n t v) in
      rw (answered, drop_get old n inside) (ap (λ rows. get_or old n [] ∷ rows) rest)
]

-- Whatever is written between the requests of a snapshot and in whatever order it asks, the buckets that it
-- is answered with are the first buckets of the table as it was when the snapshot began, in order.
pub answers-begin_snapshot :
    (h : Hasher) (t : HoldTable) (events : List Event)
    → IsSized t
    → answers h (begin_snapshot t) events
      ≡ take (length (answers h (begin_snapshot t) events)) t.buckets
answers-begin_snapshot h t events s =
    answers_from h t.buckets 0 (begin_snapshot t) events (begin_snapshot-IsStable t s)
