-- ===== src/Base/Transfer.antt =====
-- base/src/transfer.rs: the flags, the kind and the shape of a transfer, and its digest.
pub mod Flags
pub mod Laws
use Flags.{phase_mask}
use Prim.Native.Nat.{bit_and, bit_or, bit_xor}
use my_ledger.Common.{
  ℕ, ◌+◌, ◌-◌, ◌*◌, ◌/◌, ◌%◌, ◌^◌, Bool, true, false, ◌||◌, List, [], ◌∷◌, ◌==◌, if◌then◌else◌, not,
}
use my_ledger.Common.Int.{ℤ, pos, pos_part, neg_part, leb_ℤ, ltb_ℤ}
use my_ledger.Base.Ids.{
  TxId, AccountId, Amount, BudgetGroup, absent, is_absent, is_ledger_origin, max_amount,
}
use my_ledger.Base.Error.{
  Result, ok, err, ◌>>=◌, ◌>>◌, refuse_if, invalid_flags, invalid_amount, same_account,
  missing_pending_ref, unexpected_pending_ref,
}

pub data TransferKind : Type 0 where
  single_phase hold settle void_client void_expiry : TransferKind

abbrev pub needs_pending_lookup : TransferKind → Bool
needs_pending_lookup TransferKind.settle = true
needs_pending_lookup TransferKind.void_client = true
needs_pending_lookup TransferKind.void_expiry = true
needs_pending_lookup _ = false

abbrev pub is_client : TransferKind → Bool
is_client TransferKind.void_expiry = false
is_client _ = true

pub record Transfer : Type 0 where
  pub id : TxId
  pub pending_ref : TxId
  pub debit_account : AccountId
  pub credit_account : AccountId
  pub amount : Amount
  pub ledger : ℕ
  pub flags : ℕ

abbrev pub lane : Transfer → AccountId
lane tx = tx.debit_account

-- The phase bits select the kind; the reserved bit of the id tells the two voids apart.
kind_of_phase : ℕ → Bool → Result TransferKind
kind_of_phase phase ledger_origin =
    if phase == 0
    then ok TransferKind.single_phase
    else if phase == 1
    then ok TransferKind.hold
    else if phase == 2
    then ok TransferKind.settle
    else if phase == 4
    then (if ledger_origin then ok TransferKind.void_expiry else ok TransferKind.void_client)
    else err invalid_flags

unfoldable pub kind : Transfer → Result TransferKind
unfolding kind_of_phase
kind tx = kind_of_phase (bit_and tx.flags phase_mask) (is_ledger_origin tx.id)

abbrev budget_of_kind : Result TransferKind → TxId → BudgetGroup
budget_of_kind (ok TransferKind.hold) pending_ref = pending_ref
budget_of_kind _ pending_ref = absent

unfoldable pub budget : Transfer → BudgetGroup
unfolding kind
budget tx = budget_of_kind (kind tx) tx.pending_ref

abbrev amount_out_of_range : Amount → Bool
amount_out_of_range amount = leb_ℤ amount (pos 0) || ltb_ℤ max_amount amount

validate_kind : TransferKind → Transfer → Result TransferKind
validate_kind TransferKind.single_phase tx = do
  refuse_if (amount_out_of_range tx.amount) invalid_amount
  refuse_if (not (is_absent tx.pending_ref)) unexpected_pending_ref
  ok TransferKind.single_phase
validate_kind TransferKind.hold tx = do
  refuse_if (amount_out_of_range tx.amount) invalid_amount
  ok TransferKind.hold
validate_kind TransferKind.settle tx = do
  refuse_if (amount_out_of_range tx.amount) invalid_amount
  refuse_if (is_absent tx.pending_ref) missing_pending_ref
  ok TransferKind.settle
validate_kind void tx = do refuse_if (is_absent tx.pending_ref) missing_pending_ref; ok void

unfoldable pub validate : Transfer → Result TransferKind
unfolding kind validate_kind
validate tx = do
  tx_kind ← kind tx
  refuse_if (is_absent tx.id || is_absent tx.debit_account || is_absent tx.credit_account)
      invalid_flags
  refuse_if (tx.debit_account == tx.credit_account) same_account
  validate_kind tx_kind tx

-- The constant `MIX` of `digest`.
abbrev mix_factor : ℕ
mix_factor = 0x517c_c1b7_2722_0a95

-- `hash.rotate_left(5)` on a `u64`.
abbrev rotate_left5 : ℕ → ℕ
rotate_left5 hash = hash * 32 % 2 ^ 64 + hash / 2 ^ 59

mix_word : ℕ → ℕ → ℕ
mix_word hash word = bit_xor (rotate_left5 hash) word * mix_factor % 2 ^ 64

mix_words : ℕ → List ℕ → ℕ
mix_words hash [] = hash
mix_words hash (word ∷ words) = mix_words (mix_word hash word) words

-- `self.amount as u64`: the two's complement pattern.
abbrev bits_of_amount : Amount → ℕ
bits_of_amount amount = (pos_part amount + (2 ^ 64 - neg_part amount)) % 2 ^ 64

abbrev digest_words : Transfer → List ℕ
digest_words tx =
    tx.id % 2 ^ 64
    ∷ tx.id / 2 ^ 64 % 2 ^ 64
    ∷ tx.debit_account
    ∷ tx.credit_account
    ∷ bits_of_amount tx.amount
    ∷ tx.pending_ref % 2 ^ 64
    ∷ tx.pending_ref / 2 ^ 64 % 2 ^ 64
    ∷ bit_or (tx.ledger * 2 ^ 16 % 2 ^ 64) tx.flags
    ∷ []

unfoldable pub digest : Transfer → ℕ
unfolding mix_word mix_words
digest tx = mix_words mix_factor (digest_words tx)
