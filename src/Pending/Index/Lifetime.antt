-- ===== src/Pending/Index/Lifetime.antt =====
-- The table from its start, through operations and snapshots.
use my_ledger.Common.{
  ℕ, ltb, ◌==◌, ◌&&◌, zero, suc, ◌+◌, ◌*◌, ◌/◌, ◌<◌, ◌≤◌, ◌^◌, ◌≡◌, refl, ◌∙◌, arith, max, leb,
  Bool-cases, ◌⊎◌, either_branch, inl, inr, Option, none, some, List, [], ◌∷◌, length, replicate,
  get_or, length-replicate, All-replicate,
}
use my_ledger.Common.Bits.{power_pos}
use my_ledger.Common.Map.{Map, remove}
use my_ledger.Pending.Index.Word.{Slot, empty}
use my_ledger.Pending.Index.{
  HoldTable, with_capacity, next_power_of_two, grow_power, live_in_segment, no_bucket, Bucket,
}
use my_ledger.Pending.Index.Cascade.{Hasher}
use my_ledger.Pending.Index.Shape.{IsBucket, total}
use my_ledger.Pending.Index.Counts.{IsCounted, Inv, Inv-Closed, is_live, is_live_in}
use my_ledger.Pending.Index.Operations.{Op, step, step-Closed}
use my_ledger.Pending.Index.Snapshot.{
  begin_snapshot, end_snapshot, bucket_for_snapshot, read_at, read_bucket,
}

-- The least power of two that is enough, and the exponent.
record IsLeastPower (n power : ℕ) : Type 0 where
  exponent : ℕ
  is_power : power ≡ 2 ^ exponent
  enough : n ≤ power
  least : (power ≡ 1) ⊎ (power < n + n)

grow_power-IsLeastPower :
    (fuel exponent power n : ℕ)
    → power ≡ 2 ^ exponent
    → n < power + fuel + 1
    → (power ≡ 1) ⊎ (power < n + n)
    → IsLeastPower n (grow_power fuel power n)
unfolding grow_power
grow_power-IsLeastPower zero exponent power n p enough least = record {
  exponent = exponent;
  is_power = p;
  enough = omega arith;
  least = least;
}
grow_power-IsLeastPower (suc fuel) exponent power n p enough least =
    elim (Bool-cases (leb n power)) [
      | inl done ↦
          rw done
            (record { exponent = exponent; is_power = p; enough = ground arith; least = least })
      | inr more ↦ rw more (
          grow_power-IsLeastPower fuel (suc exponent) (power * 2) n (omega arith)
            (omega (arith, power_pos exponent)) (inr (ground arith)))
    ]

next_power_of_two-IsLeastPower : (n : ℕ) → IsLeastPower n (next_power_of_two n)
unfolding next_power_of_two
next_power_of_two-IsLeastPower n = grow_power-IsLeastPower n 0 1 n refl (omega arith) (inl refl)

pub data Event : Type 0 where
  operates : Op → Event
  begins ends : Event
  reads : ℕ → Event

unfoldable pub after : Hasher → HoldTable → Event → HoldTable
after h t (operates op) = step h t op
after h t begins = begin_snapshot t
after h t ends = end_snapshot t
after h t (reads at) = (bucket_for_snapshot t at).0

unfoldable pub run : Hasher → HoldTable → List Event → HoldTable
run h t [] = t
run h t (event ∷ events) = run h (after h t event) events

aside :
    (t : HoldTable) (shadow : Map Bucket) (read : Option ℕ)
    → Inv t
    → Inv (record t { shadow = shadow; read_through = read })
unfolding live_in_segment
aside t shadow read v = record {
  sized = record {
    width = v.sized.width;
    two_or_more = v.sized.two_or_more;
    counted = v.sized.counted;
    masked = v.sized.masked;
    narrow = v.sized.narrow;
    four_each = v.sized.four_each;
  };
  counted = record {
    all_of_them = v.counted.all_of_them;
    segments = v.counted.segments;
    each = v.counted.each;
  };
}

read_at-Inv : (t : HoldTable) (read : Option ℕ) (at : ℕ) → Inv t → Inv (read_at t read at).0
read_at-Inv t none at v = v
read_at-Inv t (some read) at v =
    either_branch (λ (r : HoldTable × Option Bucket). Inv r.0)
      (read == at && ltb at (length t.buckets)) (read_bucket t at) (t, none)
      (aside t (remove at t.shadow) (some (at + 1)) v) v

pub after-Inv : (h : Hasher) (t : HoldTable) (event : Event) → Inv t → Inv (after h t event)
unfolding after begin_snapshot end_snapshot bucket_for_snapshot
after-Inv h t (operates op) v = step-Closed Inv Inv-Closed h t op v
after-Inv h t begins v = aside t [] (some 0) v
after-Inv h t ends v = aside t [] none v
after-Inv h t (reads at) v = read_at-Inv t t.read_through at v

pub run-Inv : (h : Hasher) (t : HoldTable) (events : List Event) → Inv t → Inv (run h t events)
unfolding run
run-Inv h t [] v = v
run-Inv h t (event ∷ events) v = run-Inv h (after h t event) events (after-Inv h t event v)

two_or_more :
    (n : ℕ)
    → IsLeastPower n (next_power_of_two n)
    → (e : ℕ) × (1 ≤ e) × (max (next_power_of_two n) 2 ≡ 2 ^ e)
two_or_more n l = at_least l.exponent l.is_power
  where
    at_least :
        (e : ℕ)
        → next_power_of_two n ≡ 2 ^ e
        → (e : ℕ) × (1 ≤ e) × (max (next_power_of_two n) 2 ≡ 2 ^ e)
    at_least zero p = (1, omega arith, omega arith)
    at_least (suc e) p = (suc e, omega arith, omega (arith, power_pos e))

total-replicate :
    (weight : Slot → ℕ) (n : ℕ) → weight empty ≡ 0 → total weight (replicate n no_bucket) ≡ 0
total-replicate weight zero none_there = refl
total-replicate weight (suc n) none_there =
    omega (arith, none_there, total-replicate weight n none_there)

get_or-zeros : (n segment : ℕ) → get_or {A = ℕ} (replicate n 0) segment 0 ≡ 0
get_or-zeros zero segment = refl
get_or-zeros (suc n) zero = refl
get_or-zeros (suc n) (suc segment) = get_or-zeros n segment

pub with_capacity-Inv :
    (slots hops : ℕ)
    → length (with_capacity slots hops).buckets ≤ 2 ^ 32
    → Inv (with_capacity slots hops)
unfolding with_capacity live_in_segment
with_capacity-Inv slots hops small =
    let count = max (next_power_of_two ((slots + 3) / 4)) 2 in
    let (e, positive, power) =
      two_or_more ((slots + 3) / 4) (next_power_of_two-IsLeastPower ((slots + 3) / 4)) in
    record {
      sized = record {
        width = e;
        two_or_more = positive;
        counted = length-replicate count no_bucket ∙ power;
        masked = omega (arith, power, power_pos e);
        narrow = small;
        four_each = All-replicate IsBucket count no_bucket refl;
      };
      counted = record {
        all_of_them = omega (arith, total-replicate is_live count refl);
        segments = length-replicate {A = ℕ} (2 ^ 6) 0;
        each = λ segment inside.
            omega (
              arith,
              get_or-zeros (2 ^ 6) segment,
              total-replicate (is_live_in segment) count refl,
            );
      };
    }

-- A table made for any number of slots, as long as it has no more than 2^32 buckets, counts its entries
-- exactly after any sequence of inserts, repoints, replaces, removals, restored buckets and snapshots begun,
-- read and ended: the live count is the number of slots that are not empty, to 64 bits, and the count of
-- each segment the number of those whose address lies in it, to 32 bits.
pub run-IsCounted :
    (h : Hasher) (slots hops : ℕ) (events : List Event)
    → length (with_capacity slots hops).buckets ≤ 2 ^ 32
    → IsCounted (run h (with_capacity slots hops) events)
run-IsCounted h slots hops events small =
    (run-Inv h (with_capacity slots hops) events (with_capacity-Inv slots hops small)).counted
