-- ===== src/Pending/Index.antt =====
-- pending/src/index.rs: the bucketed cuckoo table of record addresses, and the one place where a slot of
-- it is written. The load factor, which is a floating-point report, is left out.
pub mod Word
pub mod Shape
pub mod Writes
pub mod Inside
pub mod Operations
pub mod Cascade
pub mod Keys
pub mod Snapshot
pub mod Counts
pub mod Lifetime
use Prim.Native.Nat.{bit_and, bit_xor}
use my_ledger.Common.{
  ℕ, zero, suc, ◌+◌, ◌-◌, ◌*◌, ◌/◌, ◌%◌, ◌^◌, max, Bool, true, false, not, ◌&&◌, Option, none, some,
  List, [], ◌∷◌, ◌++◌, leb, ltb, ◌==◌, if◌then◌else◌, inc_word, dec_word, length, get_or, set,
  replicate, option_or, is_some,
}
use my_ledger.Common.Map.{Map, lookup, insert, remove}
use my_ledger.Base.Ids.{TxId}
use my_ledger.Base.Prng.{Prng, prng_new, next_u64}
use my_ledger.Pending.Address.{RecordAddr, segment_of, segment_values}
use my_ledger.Pending.Index.Word.{
  Slot, empty, pack, fingerprint_of, address_of, is_ambiguous, mark, pack_like, fingerprint_from,
}

abbrev pub Bucket : Type 0
Bucket = List Slot

abbrev pub no_bucket : Bucket
no_bucket = replicate 4 empty

-- A bucket and a way of it.
abbrev pub Place : Type 0
Place = ℕ × ℕ

-- `WAYS` of them.
abbrev pub ways : List ℕ
ways = 0 ∷ 1 ∷ 2 ∷ 3 ∷ []

pub record HoldTable : Type 0 where
  pub buckets : List Bucket
  pub mask : ℕ
  pub live : ℕ
  pub live_per_segment : List ℕ
  pub shadow : Map Bucket
  pub read_through : Option ℕ
  pub victims : Prng
  pub max_hops : ℕ
  pub hops : ℕ
  pub worst_hops : ℕ
  pub ambiguous : ℕ

-- `usize::next_power_of_two` of the standard library, for what it is asked here: a quarter of a `usize`,
-- too small to overflow. From a power that is not yet known to be enough.
unfoldable pub grow_power : ℕ → ℕ → ℕ → ℕ
grow_power zero power n = power
grow_power (suc fuel) power n =
    let rest = grow_power fuel (power * 2) n in if leb n power then power else rest

unfoldable pub next_power_of_two : ℕ → ℕ
unfolding grow_power
next_power_of_two n = grow_power n 1 n

unfoldable pub with_capacity : ℕ → ℕ → HoldTable
unfolding next_power_of_two prng_new
with_capacity slots hops =
    let count = max (next_power_of_two ((slots + 3) / 4)) 2 in
    record {
      buckets = replicate count no_bucket;
      mask = count - 1;
      live = 0;
      live_per_segment = replicate segment_values 0;
      shadow = [];
      read_through = none;
      victims = prng_new 0x9E3779B9;
      max_hops = max hops 1;
      hops = 0;
      worst_hops = 0;
      ambiguous = 0;
    }

unfoldable pub slot_word : HoldTable → Place → Slot
slot_word t (bucket, way) = get_or (get_or t.buckets bucket []) way empty

abbrev pub set_word : List Bucket → Place → Slot → List Bucket
set_word buckets (bucket, way) slot = set buckets bucket (set (get_or buckets bucket []) way slot)

abbrev pub change_count : List ℕ → Slot → (ℕ → ℕ) → List ℕ
change_count counts slot f =
    let segment = segment_of (address_of slot) in set counts segment (f (get_or counts segment 0))

abbrev pub behind : Option ℕ → ℕ → Bool
behind none bucket = false
behind (some read) bucket = leb read bucket

-- `entry(bucket).or_insert_with(...)`.
abbrev pub keep_copy : HoldTable → ℕ → HoldTable
keep_copy t bucket =
    if behind t.read_through bucket && not (is_some (lookup bucket t.shadow))
    then record t { shadow = insert bucket (get_or t.buckets bucket []) t.shadow }
    else t

abbrev pub count_out : HoldTable → Slot → HoldTable
count_out t slot = if slot == empty then t else record t {
  live_per_segment = change_count t.live_per_segment slot (dec_word 32);
  live = dec_word 64 t.live;
}

abbrev pub count_in : HoldTable → Slot → HoldTable
count_in t slot = if slot == empty then t else record t {
  live_per_segment = change_count t.live_per_segment slot (inc_word 32);
  live = inc_word 64 t.live;
}

abbrev pub written : HoldTable → Place → Slot → HoldTable
written t at slot = record t { buckets = set_word t.buckets at slot }

-- The one place a slot is written. The table afterwards, and the word that was there.
unfoldable pub set_slot : HoldTable → Place → Slot → HoldTable × Slot
set_slot t at slot =
    let previous = slot_word t at in
    (written (count_in (count_out (keep_copy t at.0) previous) slot) at slot, previous)

put_way : HoldTable → ℕ → Slot → List ℕ → HoldTable × Bool
put_way t bucket slot [] = (t, false)
put_way t bucket slot (way ∷ rest) =
    let later = put_way t bucket slot rest in
    if slot_word t (bucket, way) == empty then ((set_slot t (bucket, way) slot).0, true) else later

unfoldable pub put : HoldTable → ℕ → Slot → HoldTable × Bool
unfolding put_way
put t bucket slot = put_way t bucket slot ways

unfoldable pub live_in_segment : HoldTable → ℕ → ℕ
live_in_segment t segment = get_or t.live_per_segment segment 0

sum_all : List ℕ → ℕ
sum_all [] = 0
sum_all (n ∷ rest) = n + sum_all rest

unfoldable pub counts_agree : HoldTable → Bool
unfolding sum_all
counts_agree t = sum_all t.live_per_segment == t.live
