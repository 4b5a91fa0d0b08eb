-- ===== src/Pending/Address/Laws.antt =====
-- An address and its three fields.
use my_ledger.Common.{ℕ, ◌<◌, ◌^◌, ◌≡◌, arith}
use my_ledger.Pending.Address.{address_new, segment_of, block_of, index_of}

pub fields_lem :
    (segment block index : ℕ)
    → segment < 2 ^ 6
    → block < 2 ^ 35
    → index < 2 ^ 6
    → (segment_of (address_new segment block index) ≡ segment)
      × (block_of (address_new segment block index) ≡ block)
      × (index_of (address_new segment block index) ≡ index)
      × (address_new segment block index < 2 ^ 47)
unfolding address_new segment_of block_of index_of
fields_lem segment block index s b i = (omega arith, omega arith, omega arith, omega arith)
