-- ===== src/Pending/Index/Word.antt =====
-- pending/src/index.rs: one word of the table. A fingerprint of sixteen bits, a bit that says whether the
-- fingerprint is shared, and an address of forty-seven.
use my_ledger.Common.{ℕ, ◌+◌, ◌*◌, ◌/◌, ◌%◌, ◌^◌, Bool, ◌==◌, if◌then◌else◌}
use my_ledger.Pending.Address.{RecordAddr}

abbrev pub Slot : Type 0
Slot = ℕ

abbrev pub empty : Slot
empty = 0

-- The fields do not overlap, so what the code joins with `|` is a sum.
unfoldable pub pack : ℕ → RecordAddr → Slot
pack fingerprint addr = fingerprint * 2 ^ 48 % 2 ^ 64 + addr % 2 ^ 47

unfoldable pub fingerprint_of : Slot → ℕ
fingerprint_of slot = slot / 2 ^ 48

unfoldable pub address_of : Slot → RecordAddr
address_of slot = slot % 2 ^ 47

unfoldable pub is_ambiguous : Slot → Bool
is_ambiguous slot = slot / 2 ^ 47 % 2 == 1

-- `slot | AMBIGUOUS`.
unfoldable pub mark : Slot → Slot
unfolding is_ambiguous
mark slot = if is_ambiguous slot then slot else slot + 2 ^ 47

-- `pack(...) | (slot & AMBIGUOUS)`, which keeps what a slot says of its fingerprint.
unfoldable pub pack_like : Slot → RecordAddr → Slot
unfolding pack fingerprint_of is_ambiguous
pack_like slot addr =
    if is_ambiguous slot
    then pack (fingerprint_of slot) addr + 2 ^ 47
    else pack (fingerprint_of slot) addr

-- Zero marks an empty slot, so it is no fingerprint.
unfoldable pub fingerprint_from : ℕ → ℕ
fingerprint_from hash = if hash / 2 ^ 48 == 0 then 1 else hash / 2 ^ 48
