-- ===== src/Pending/Index/Snapshot.antt =====
-- pending/src/index.rs: a snapshot reads the table bucket by bucket while it is written.
pub mod Stable
use Prim.Native.Nat.{bit_and, bit_xor}
use my_ledger.Common.{
  ℕ, zero, suc, ◌+◌, ◌-◌, ◌*◌, ◌/◌, ◌%◌, ◌^◌, max, Bool, true, false, not, ◌&&◌, Option, none, some,
  List, [], ◌∷◌, ◌++◌, leb, ltb, ◌==◌, if◌then◌else◌, inc_word, dec_word, length, get_or, set,
  replicate, option_or, is_some,
}
use my_ledger.Common.Map.{Map, lookup, insert, remove}
use my_ledger.Base.Ids.{TxId}
use my_ledger.Base.Prng.{Prng, prng_new, next_u64}
use my_ledger.Pending.Address.{RecordAddr, segment_of, segment_values}
use my_ledger.Pending.Index.Word.{
  Slot, empty, pack, fingerprint_of, address_of, is_ambiguous, mark, pack_like, fingerprint_from,
}
use my_ledger.Pending.Index.{HoldTable, Bucket, Place, ways, slot_word, set_slot, put}

unfoldable pub begin_snapshot : HoldTable → HoldTable
begin_snapshot t = record t { shadow = []; read_through = some 0 }

unfoldable pub end_snapshot : HoldTable → HoldTable
end_snapshot t = record t { shadow = []; read_through = none }

abbrev pub copy_or : Option Bucket → Bucket → Bucket
copy_or none live = live
copy_or (some copy) live = copy

abbrev pub read_bucket : HoldTable → ℕ → HoldTable × Option Bucket
read_bucket t at = (
  record t { shadow = remove at t.shadow; read_through = some (at + 1) },
  some (copy_or (lookup at t.shadow) (get_or t.buckets at [])),
)

abbrev pub read_at : HoldTable → Option ℕ → ℕ → HoldTable × Option Bucket
read_at t none at = (t, none)
read_at t (some read) at =
    if read == at && ltb at (length t.buckets) then read_bucket t at else (t, none)

unfoldable pub bucket_for_snapshot : HoldTable → ℕ → HoldTable × Option Bucket
bucket_for_snapshot t at = read_at t t.read_through at

unfoldable pub restore_ways : HoldTable → ℕ → ℕ → List Slot → HoldTable
restore_ways t bucket way [] = t
restore_ways t bucket way (word ∷ words) =
    restore_ways (set_slot t (bucket, way) word).0 bucket (suc way) words

unfoldable pub restore_bucket : HoldTable → ℕ → List Slot → HoldTable × Bool
unfolding restore_ways
restore_bucket t at words =
    if leb (length t.buckets) at then (t, false) else (restore_ways t at 0 words, true)
