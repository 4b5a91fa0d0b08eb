-- ===== src/Base/Transfer/Flags.antt =====
-- base/src/transfer.rs, `TransferFlags`: a `u16` of bits.
use Prim.Native.Nat.{bit_and, bit_or}
use my_ledger.Common.{ℕ, Bool, ◌==◌}

abbrev pub none_set : ℕ
none_set = 0

abbrev pub pending : ℕ
pending = 1

abbrev pub post_pending : ℕ
post_pending = 2

abbrev pub void_pending : ℕ
void_pending = 4

abbrev pub linked : ℕ
linked = 8

abbrev pub phase_mask : ℕ
phase_mask = 7

unfoldable pub contains : ℕ → ℕ → Bool
contains flags other = bit_and flags other == other

unfoldable pub with_flags : ℕ → ℕ → ℕ
with_flags flags other = bit_or flags other
