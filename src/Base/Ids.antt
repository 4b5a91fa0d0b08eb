-- ===== src/Base/Ids.antt =====
-- base/src/ids.rs. Every id is a number, as its newtype is; an `Amount` is an `i64`, a signed number
-- whose sums wrap where the code's do.
pub mod Laws
use my_ledger.Common.{ℕ, ◌+◌, ◌-◌, ◌/◌, ◌%◌, ◌^◌, Bool, not, ◌==◌, if◌then◌else◌}
use my_ledger.Common.Int.{ℤ, pos}

abbrev pub Amount : Type 0
Amount = ℤ

abbrev pub Seq : Type 0
Seq = ℕ

-- The seq of a request that keeps no place in its lane's order.
abbrev pub unordered : Seq
unordered = 0

-- The ceiling of one transfer.
abbrev pub max_amount : Amount
max_amount = pos (2 ^ 40)

abbrev pub TxId : Type 0
TxId = ℕ

abbrev pub AccountId : Type 0
AccountId = ℕ

abbrev pub LinkedChainId : Type 0
LinkedChainId = ℕ

abbrev pub BudgetGroup : Type 0
BudgetGroup = ℕ

-- The `ABSENT` and the `is_absent` that the macro gives every id.
abbrev pub absent : ℕ
absent = 0

abbrev pub is_absent : ℕ → Bool
is_absent id = id == 0

abbrev pub AcctHandle : Type 0
AcctHandle = ℕ

-- `AcctHandle::INVALID`, `u32::MAX`.
abbrev pub invalid_handle : AcctHandle
invalid_handle = 2 ^ 32 - 1

-- `AcctHandle::new`, which keeps the 32 low bits of an index.
unfoldable pub handle_new : ℕ → AcctHandle
handle_new index = index % 2 ^ 32

-- `self.0 & LEDGER_ORIGIN != 0`: the bit of weight 2^127.
unfoldable pub is_ledger_origin : TxId → Bool
is_ledger_origin id = not ((id / 2 ^ 127) % 2 == 0)

-- `hold.0 | LEDGER_ORIGIN`.
unfoldable pub expiry_void_of : TxId → TxId
unfolding is_ledger_origin
expiry_void_of hold = if is_ledger_origin hold then hold else hold + 2 ^ 127
