-- ===== src/Pending/Address.antt =====
-- pending/src/block.rs, `RecordAddr`: where a record is, in 47 bits.
pub mod Laws
use my_ledger.Common.{ℕ, ◌+◌, ◌*◌, ◌/◌, ◌%◌, ◌^◌}

abbrev pub RecordAddr : Type 0
RecordAddr = ℕ

abbrev pub index_bits : ℕ
index_bits = 6

abbrev pub block_bits : ℕ
block_bits = 35

-- `SEGMENT_VALUES`.
abbrev pub segment_values : ℕ
segment_values = 2 ^ 6

abbrev pub block_bytes : ℕ
block_bytes = 4096

-- `RecordAddr::new`. The three fields do not overlap, so what the code joins with `|` is a sum; the
-- segment is a byte, which the field's width does not cut.
unfoldable pub address_new : ℕ → ℕ → ℕ → RecordAddr
address_new segment block index = segment * 2 ^ (35 + 6) + block % 2 ^ 35 * 2 ^ 6 + index % 2 ^ 6

unfoldable pub segment_of : RecordAddr → ℕ
segment_of a = a / 2 ^ (35 + 6) % 2 ^ 8

unfoldable pub block_of : RecordAddr → ℕ
block_of a = a / 2 ^ 6 % 2 ^ 35

unfoldable pub index_of : RecordAddr → ℕ
index_of a = a % 2 ^ 6

-- Where the block sits in its segment.
unfoldable pub block_offset : RecordAddr → ℕ
unfolding block_of
block_offset a = block_of a * 4096
