-- ===== src/Base/Transfer/Laws.antt =====
-- What `Transfer::validate` and `Transfer::budget` promise (base/src/transfer.rs).
use Prim.Native.Nat.{bit_and}
use my_ledger.Common.{ℕ, ◌≡◌, ◌≢◌, ◌↔◌, true, false, arith}
use my_ledger.Common.Int.{pos, ◌≤ℤ◌}
use my_ledger.Base.Ids.{is_ledger_origin, max_amount, absent}
use my_ledger.Base.Error.{ok}
use my_ledger.Base.Transfer.{Transfer, TransferKind, validate}

-- The phase bits that select a kind.
abbrev pub phase_of : TransferKind → ℕ
phase_of TransferKind.single_phase = 0
phase_of TransferKind.hold = 1
phase_of TransferKind.settle = 2
phase_of TransferKind.void_client = 4
phase_of TransferKind.void_expiry = 4

abbrev pub IsPayable : Transfer → Type 0
IsPayable tx = (pos 1 ≤ℤ tx.amount) × (tx.amount ≤ℤ max_amount)

-- What a kind asks of the amount, the reference and the id.
abbrev pub SuitsKind : Transfer → TransferKind → Type 0
SuitsKind tx TransferKind.single_phase = IsPayable tx × (tx.pending_ref ≡ absent)
SuitsKind tx TransferKind.hold = IsPayable tx
SuitsKind tx TransferKind.settle = IsPayable tx × (tx.pending_ref ≢ absent)
SuitsKind tx TransferKind.void_client = (tx.pending_ref ≢ absent) × (is_ledger_origin tx.id ≡ false)
SuitsKind tx TransferKind.void_expiry = (tx.pending_ref ≢ absent) × (is_ledger_origin tx.id ≡ true)

pub record IsWellShaped (tx : Transfer) (k : TransferKind) : Type 0 where
  pub named : tx.id ≢ absent
  pub debited : tx.debit_account ≢ absent
  pub credited : tx.credit_account ≢ absent
  pub apart : tx.debit_account ≢ tx.credit_account
  pub phase : bit_and tx.flags 7 ≡ phase_of k
  pub suited : SuitsKind tx k

validate_sound : (tx : Transfer) (k : TransferKind) → validate tx ≡ ok k → IsWellShaped tx k
unfolding validate
validate_sound tx TransferKind.single_phase h = ground arith
validate_sound tx k h = ground arith

validate_complete : (tx : Transfer) (k : TransferKind) → IsWellShaped tx k → validate tx ≡ ok k
unfolding validate
validate_complete tx TransferKind.single_phase w = ground arith
validate_complete tx k w = ground arith

-- `validate` accepts a transfer as a kind exactly when it is well shaped for that kind: three ids
-- present, two different accounts, the phase bits of the kind, an amount between 1 and the ceiling
-- where the kind moves one, a reference where it resolves a hold and none on a single-phase transfer;
-- the id's reserved bit says which of the two voids a void is.
pub validate_iff : (tx : Transfer) (k : TransferKind) → (validate tx ≡ ok k) ↔ IsWellShaped tx k
validate_iff tx k = (validate_sound tx k, validate_complete tx k)
