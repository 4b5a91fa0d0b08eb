-- ===== src/Pending/Index/Counts.antt =====
-- The count of live entries, and of those in each segment: what expiry asks of the table.
use my_ledger.Common.{
  ℕ, ◌+◌, ◌<◌, ◌≤◌, ◌^◌, ◌%◌, ◌≡◌, refl, sym, ap, ◌∙◌, arith, ◌==◌, if◌then◌else◌, List, length,
  get_or, inc_word, dec_word, length-set, get_or-set_self, get_or-set_ne,
}
use my_ledger.Pending.Address.{segment_of}
use my_ledger.Pending.Index.Word.{Slot, empty, address_of}
use my_ledger.Pending.Index.{
  HoldTable, Place, slot_word, set_slot, keep_copy, count_out, count_in, change_count,
  live_in_segment,
}
use my_ledger.Pending.Index.Shape.{
  IsSized, IsPlace, total, total-set_word, buckets-set_slot, set_slot-IsSized,
}
use my_ledger.Pending.Index.Writes.{Closed}

abbrev pub segment_in : Slot → ℕ
segment_in w = segment_of (address_of w)

-- What one slot adds to the count of all entries, and to that of one segment.
abbrev pub is_live : Slot → ℕ
is_live w = if w == empty then 0 else 1

abbrev pub is_live_in : ℕ → Slot → ℕ
is_live_in segment w = if w == empty then 0 else if segment_in w == segment then 1 else 0

pub record IsCounted (t : HoldTable) : Type 0 where
  pub all_of_them : t.live ≡ total is_live t.buckets % 2 ^ 64
  pub segments : length t.live_per_segment ≡ 2 ^ 6
  pub each :
      (segment : ℕ)
      → segment < 2 ^ 6
      → live_in_segment t segment ≡ total (is_live_in segment) t.buckets % 2 ^ 32

segment_in-lt : (w : Slot) → segment_in w < 2 ^ 6
unfolding segment_of address_of
segment_in-lt w = omega arith

get_or-change_count :
    (counts : List ℕ) (w : Slot) (f : ℕ → ℕ) (segment : ℕ)
    → length counts ≡ 2 ^ 6
    → get_or (change_count counts w f) segment 0
      ≡ (if segment_in w == segment then f (get_or counts segment 0) else get_or counts segment 0)
get_or-change_count counts w f segment n = ground (
  arith,
  get_or-set_self counts (segment_in w) (f (get_or counts (segment_in w) 0)) 0
      (omega (arith, segment_in-lt w)),
  get_or-set_ne counts (segment_in w) segment (f (get_or counts (segment_in w) 0)) 0,
)

weight-le :
    (weight : Slot → ℕ) (t : HoldTable) (at : Place)
    → weight empty ≡ 0
    → IsPlace t at
    → IsSized t
    → weight (slot_word t at) ≤ total weight t.buckets
weight-le weight t at zero inside s =
    omega (arith, zero, total-set_word weight t at empty inside s.four_each)

live-keep_copy : (t : HoldTable) (b : ℕ) → (keep_copy t b).live ≡ t.live
live-keep_copy t b = ground arith

counts-keep_copy : (t : HoldTable) (b : ℕ) → (keep_copy t b).live_per_segment ≡ t.live_per_segment
counts-keep_copy t b = ground arith

abbrev live_out : Slot → ℕ → ℕ
live_out w n = if w == empty then n else dec_word 64 n

abbrev live_in : Slot → ℕ → ℕ
live_in w n = if w == empty then n else inc_word 64 n

live-count_out : (t : HoldTable) (w : Slot) → (count_out t w).live ≡ live_out w t.live
live-count_out t w = ground arith

live-count_in : (t : HoldTable) (w : Slot) → (count_in t w).live ≡ live_in w t.live
live-count_in t w = ground arith

live-set_slot :
    (t : HoldTable) (at : Place) (w : Slot)
    → (set_slot t at w).0.live ≡ live_in w (live_out (slot_word t at) t.live)
unfolding set_slot
live-set_slot t at w =
    rw
      (
        live-count_in (count_out (keep_copy t at.0) (slot_word t at)) w,
        live-count_out (keep_copy t at.0) (slot_word t at),
        live-keep_copy t at.0,
      )
      refl

length-count_out :
    (t : HoldTable) (w : Slot) → length (count_out t w).live_per_segment ≡ length t.live_per_segment
length-count_out t w = ground (
  arith,
  length-set t.live_per_segment (segment_in w)
      (dec_word 32 (get_or t.live_per_segment (segment_in w) 0)),
)

length-count_in :
    (t : HoldTable) (w : Slot) → length (count_in t w).live_per_segment ≡ length t.live_per_segment
length-count_in t w = ground (
  arith,
  length-set t.live_per_segment (segment_in w)
      (inc_word 32 (get_or t.live_per_segment (segment_in w) 0)),
)

length-counts :
    (t : HoldTable) (at : Place) (w : Slot)
    → length (set_slot t at w).0.live_per_segment ≡ length t.live_per_segment
unfolding set_slot
length-counts t at w =
    length-count_in (count_out (keep_copy t at.0) (slot_word t at)) w
    ∙ length-count_out (keep_copy t at.0) (slot_word t at)
    ∙ ap length (counts-keep_copy t at.0)

abbrev out_of : ℕ → Slot → ℕ → ℕ
out_of segment w n = if w == empty then n else if segment_in w == segment then dec_word 32 n else n

abbrev in_to : ℕ → Slot → ℕ → ℕ
in_to segment w n = if w == empty then n else if segment_in w == segment then inc_word 32 n else n

segment-count_out :
    (t : HoldTable) (w : Slot) (segment : ℕ)
    → length t.live_per_segment ≡ 2 ^ 6
    → get_or (count_out t w).live_per_segment segment 0
      ≡ out_of segment w (get_or t.live_per_segment segment 0)
segment-count_out t w segment n =
    ground (arith, get_or-change_count t.live_per_segment w (dec_word 32) segment n)

segment-count_in :
    (t : HoldTable) (w : Slot) (segment : ℕ)
    → length t.live_per_segment ≡ 2 ^ 6
    → get_or (count_in t w).live_per_segment segment 0
      ≡ in_to segment w (get_or t.live_per_segment segment 0)
segment-count_in t w segment n =
    ground (arith, get_or-change_count t.live_per_segment w (inc_word 32) segment n)

segment-set_slot :
    (t : HoldTable) (at : Place) (w : Slot) (segment : ℕ)
    → length t.live_per_segment ≡ 2 ^ 6
    → live_in_segment (set_slot t at w).0 segment
      ≡ in_to segment w (out_of segment (slot_word t at) (live_in_segment t segment))
unfolding set_slot live_in_segment
segment-set_slot t at w segment n =
    let copied = keep_copy t at.0 in
    let same = ap length (counts-keep_copy t at.0) ∙ n in
    rw
      (
        segment-count_in (count_out copied (slot_word t at)) w segment
            (length-count_out copied (slot_word t at) ∙ same),
        segment-count_out copied (slot_word t at) segment same,
        counts-keep_copy t at.0,
      )
      refl

live_lem :
    (previous w before after n : ℕ)
    → n ≡ before % 2 ^ 64
    → is_live previous ≤ before
    → after + is_live previous ≡ before + is_live w
    → live_in w (live_out previous n) ≡ after % 2 ^ 64
live_lem previous w before after n same h e = ground arith

segment_lem :
    (segment previous w before after n : ℕ)
    → n ≡ before % 2 ^ 32
    → is_live_in segment previous ≤ before
    → after + is_live_in segment previous ≡ before + is_live_in segment w
    → in_to segment w (out_of segment previous n) ≡ after % 2 ^ 32
segment_lem segment previous w before after n same h e = ground arith

set_slot-IsCounted :
    (t : HoldTable) (at : Place) (w : Slot)
    → IsPlace t at
    → IsSized t
    → IsCounted t
    → IsCounted (set_slot t at w).0
set_slot-IsCounted t at w inside s c = record {
  all_of_them =
      live-set_slot t at w
      ∙ live_lem (slot_word t at) w (total is_live t.buckets) _ t.live c.all_of_them
          (weight-le is_live t at refl inside s) (total-set_word is_live t at w inside s.four_each)
      ∙ ap (λ bs. total is_live bs % 2 ^ 64) (sym (buckets-set_slot t at w));
  segments = length-counts t at w ∙ c.segments;
  each = λ segment small.
      segment-set_slot t at w segment c.segments
      ∙ segment_lem segment (slot_word t at) w (total (is_live_in segment) t.buckets) _
          (live_in_segment t segment) (c.each segment small)
          (weight-le (is_live_in segment) t at refl inside s)
          (total-set_word (is_live_in segment) t at w inside s.four_each)
      ∙ ap (λ bs. total (is_live_in segment) bs % 2 ^ 32) (sym (buckets-set_slot t at w));
}

pub record Inv (t : HoldTable) : Type 0 where
  pub sized : IsSized t
  pub counted : IsCounted t

pub Inv-Closed : Closed Inv
unfolding live_in_segment
Inv-Closed = record {
  sized = λ t v. v.sized;
  writes = λ t at w inside v. record {
    sized = set_slot-IsSized t at w inside.0 v.sized;
    counted = set_slot-IsCounted t at w inside v.sized v.counted;
  };
  notes = λ t victims hops worst_hops ambiguous v. record {
    sized = record {
      width = v.sized.width;
      two_or_more = v.sized.two_or_more;
      counted = v.sized.counted;
      masked = v.sized.masked;
      narrow = v.sized.narrow;
      four_each = v.sized.four_each;
    };
    counted = record {
      all_of_them = v.counted.all_of_them;
      segments = v.counted.segments;
      each = v.counted.each;
    };
  };
}
