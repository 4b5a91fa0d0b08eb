-- ===== src/Pending/Index/Cascade.antt =====
-- pending/src/index.rs: both buckets of an entry, and the kicks that make room for one. The hash function
-- is the crate `rustc-hash`'s, a parameter.
pub mod Conserved
pub mod Pairs
use Prim.Native.Nat.{bit_and, bit_xor}
use my_ledger.Common.{
  ℕ, zero, suc, ◌+◌, ◌-◌, ◌*◌, ◌/◌, ◌%◌, ◌^◌, max, Bool, true, false, not, ◌&&◌, Option, none, some,
  List, [], ◌∷◌, ◌++◌, leb, ltb, ◌==◌, if◌then◌else◌, inc_word, dec_word, length, get_or, set,
  replicate, option_or, is_some,
}
use my_ledger.Common.Map.{Map, lookup, insert, remove}
use my_ledger.Base.Ids.{TxId}
use my_ledger.Base.Prng.{Prng, prng_new, next_u64}
use my_ledger.Pending.Address.{RecordAddr, segment_of, segment_values}
use my_ledger.Pending.Index.Word.{
  Slot, empty, pack, fingerprint_of, address_of, is_ambiguous, mark, pack_like, fingerprint_from,
}
use my_ledger.Pending.Index.{HoldTable, Bucket, Place, ways, slot_word, set_slot, put}

-- `FxBuildHasher.hash_one` on the two kinds of key that are hashed.
pub record Hasher : Type 0 where
  pub of_key : TxId → ℕ
  pub of_fingerprint : ℕ → ℕ

abbrev pub note_hops : HoldTable → ℕ → HoldTable
note_hops t hop = record t { hops = (t.hops + hop) % 2 ^ 64; worst_hops = max t.worst_hops hop }

-- A cascade under way: the entry that has just lost its slot, and the bucket that is its other home.
pub record Kicked : Type 0 where
  pub table : HoldTable
  pub next : ℕ
  pub carried : Slot

module _ (h : Hasher) where
  -- The other bucket of an entry, from its fingerprint alone. A step of zero would be no other bucket.
  unfoldable pub alternate : HoldTable → ℕ → ℕ → ℕ
  alternate t bucket fingerprint =
      let step = bit_and (h.of_fingerprint fingerprint) t.mask in
      bit_xor bucket (if step == 0 then 1 else step)

  unfoldable pub fingerprint_for : TxId → ℕ
  unfolding fingerprint_from
  fingerprint_for key = fingerprint_from (h.of_key key)

  unfoldable pub home_of : HoldTable → TxId → ℕ
  home_of t key = bit_and (h.of_key key) t.mask

  -- `locate`: both candidate buckets, after `fingerprint_for`.
  unfoldable pub homes : HoldTable → TxId → List ℕ
  homes t key = home_of t key ∷ alternate t (home_of t key) (fingerprint_for key) ∷ []

  -- Only an entry whose other bucket is not the one the cascade came from is passed on, where there is one.
  unfoldable pub victim_from : HoldTable → ℕ → ℕ → ℕ → List ℕ → ℕ
  victim_from t bucket came_from start [] = start
  victim_from t bucket came_from start (step ∷ steps) =
      let later = victim_from t bucket came_from start steps in
      let way = (start + step) % 4 in
      if alternate t bucket (fingerprint_of (slot_word t (bucket, way))) == came_from
      then later
      else way

  unfoldable pub victim : HoldTable → ℕ → ℕ → HoldTable × ℕ
  unfolding victim_from
  victim t bucket came_from =
      let drawn = next_u64 t.victims in
      (record t { victims = drawn.0 }, victim_from t bucket came_from (drawn.1 % 4) ways)

  unfoldable pub kick : HoldTable → ℕ → ℕ → Slot → Kicked
  kick t bucket came_from slot =
      let chosen = victim t bucket came_from in
      let swapped = set_slot chosen.0 (bucket, chosen.1) slot in
      record {
        table = swapped.0;
        next = alternate swapped.0 bucket (fingerprint_of swapped.1);
        carried = swapped.1;
      }

  -- The table, and the entry left without a home. The first number is of the hops that are left.
  unfoldable pub cascade : ℕ → ℕ → HoldTable → ℕ → ℕ → Slot → HoldTable × Option Slot
  cascade zero hop t bucket came_from slot = (t, some slot)
  cascade (suc left) hop t bucket came_from slot =
      let k = kick t bucket came_from slot in
      let tried = put k.table k.next k.carried in
      let rest = cascade left (suc hop) k.table k.next bucket k.carried in
      if tried.1 then (note_hops tried.0 hop, none) else rest

  unfoldable pub place : HoldTable → Slot → ℕ → ℕ → HoldTable × Option Slot
  place t slot home other =
      let first = put t home slot in
      let second = put t other slot in
      if first.1
      then (first.0, none)
      else if second.1
      then (second.0, none)
      else cascade t.max_hops 1 t home other slot
