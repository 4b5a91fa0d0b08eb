-- ===== src/Examples/Index.antt =====
-- pending: a small table, two keys that share a bucket, and a record.
use my_ledger.Common.{
  ◌+◌, ◌*◌, ◌%◌, ◌^◌, ◌≤◌, ◌≡◌, refl, arith, true, none, inl, List, [], ◌∷◌, length, take,
}
use my_ledger.Common.Int.{pos}
use my_ledger.Common.Map.{lookup}
use my_ledger.Base.Ports.Pending.{HoldData}
use my_ledger.Pending.Address.{segment_of}
use my_ledger.Pending.Record.{encode, decode, record_bytes}
use my_ledger.Pending.Record.RoundTrip.{decode-encode, without_group}
use my_ledger.Pending.Index.{HoldTable, with_capacity, next_power_of_two, put, set_slot, slot_word}
use my_ledger.Pending.Index.Word.{Slot, pack, fingerprint_from, fingerprint_of, address_of, mark}
use my_ledger.Pending.Index.Cascade.{Hasher, place, fingerprint_for, home_of, alternate, cascade}
use my_ledger.Pending.Index.Cascade.Conserved.{counted, place-counted}
use my_ledger.Pending.Index.Keys.{insert_new, points_at, candidates, hits}
use my_ledger.Pending.Index.Keys.Points.{Holds, insert_new-points_at}
use my_ledger.Pending.Index.Shape.{IsSized, total}
use my_ledger.Pending.Index.Counts.{IsCounted, is_live}
use my_ledger.Pending.Index.Operations.{inserts, step}
use my_ledger.Pending.Index.Lifetime
use my_ledger.Pending.Index.Lifetime.{run, after, run-IsCounted, run-Inv, with_capacity-Inv}
use my_ledger.Pending.Index.Snapshot.{begin_snapshot}
use my_ledger.Pending.Index.Snapshot.Stable.{answers, asks, answers-begin_snapshot}
use my_ledger.Pending.Index.Snapshot.Stable

abbrev some_hold : HoldData
some_hold = record {
  debit_account = 1;
  credit_account = 2;
  amount = pos 500;
  remaining = pos 200;
  ledger = 7;
  budget = 9;
  budget_members = 3;
  budget_remaining = pos 40;
}

decode-encode_example :
    (length (encode 5 some_hold) ≡ record_bytes)
    × (decode (encode 5 some_hold) ≡ (5, without_group some_hold))
decode-encode_example = decode-encode 5 some_hold (omega arith) (record {
  debit_fits = omega arith;
  credit_fits = omega arith;
  amount_fits = (omega arith, omega arith);
  remaining_fits = (omega arith, omega arith);
  ledger_fits = omega arith;
  budget_fits = omega arith;
})

abbrev plain_hash : Hasher
plain_hash = record {
  of_key = λ key. key * 2 ^ 48 % 2 ^ 64;
  of_fingerprint = λ fingerprint. fingerprint;
}

abbrev small_table : HoldTable
small_table = with_capacity 8 4

small_table-small : length small_table.buckets ≤ 2 ^ 32
unfolding with_capacity next_power_of_two
small_table-small = omega arith

abbrev one_insert : List Lifetime.Event
one_insert = Lifetime.operates (inserts 3 7) ∷ []

abbrev used_table : HoldTable
used_table = run plain_hash small_table one_insert

used_table-counted : length used_table.buckets ≡ 2
unfolding run after step insert_new candidates hits fingerprint_for fingerprint_from home_of
    alternate place put set_slot slot_word with_capacity next_power_of_two pack fingerprint_of
    address_of segment_of lookup cascade mark
used_table-counted = refl

used_table-IsSized : IsSized used_table
used_table-IsSized =
    (run-Inv plain_hash small_table one_insert (with_capacity-Inv 8 4 small_table-small)).sized

run-IsCounted_example : IsCounted (run plain_hash small_table one_insert)
run-IsCounted_example = run-IsCounted plain_hash 8 4 one_insert small_table-small

abbrev new_entry : Slot
new_entry = pack 4 9

place-counted_example :
    counted is_live (place plain_hash used_table new_entry 0 1)
    ≡ total is_live used_table.buckets + is_live new_entry
place-counted_example =
    place-counted plain_hash is_live used_table new_entry 0 1 refl used_table-IsSized
      (omega (arith, used_table-counted)) (omega (arith, used_table-counted))

second_insert : (insert_new plain_hash used_table 4 9).1 ≡ none
unfolding run after step insert_new candidates hits fingerprint_for fingerprint_from home_of
    alternate place put set_slot slot_word with_capacity next_power_of_two pack fingerprint_of
    address_of segment_of lookup cascade mark
second_insert = refl

used_table-Holds : Holds plain_hash used_table 3 7
unfolding run after step insert_new candidates hits fingerprint_for fingerprint_from home_of
    alternate place put set_slot slot_word with_capacity next_power_of_two pack fingerprint_of
    address_of segment_of lookup cascade mark
used_table-Holds = omega arith

insert_new-points_at_example :
    points_at plain_hash (insert_new plain_hash used_table 4 9).0 3 7 ≡ true
insert_new-points_at_example =
    insert_new-points_at plain_hash used_table 4 9 3 7 used_table-IsSized (omega arith)
      (omega arith) second_insert (inl used_table-Holds)

abbrev snapshot_events : List Stable.Event
snapshot_events = asks 0 ∷ Stable.operates (inserts 4 9) ∷ asks 1 ∷ []

answers-begin_snapshot_example :
    answers plain_hash (begin_snapshot used_table) snapshot_events
    ≡ take
        (length (answers plain_hash (begin_snapshot used_table) snapshot_events))
        used_table.buckets
answers-begin_snapshot_example =
    answers-begin_snapshot plain_hash used_table snapshot_events used_table-IsSized
