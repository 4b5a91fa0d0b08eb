-- ===== src/Account.antt =====
-- account/src/store.rs, `MemoryAccounts`: the account component behind `AccountPort`. A call returns the
-- store it leaves behind beside its answer, also when it refuses, so that a refusal shows what was
-- written before it. A handle out of range, on which the code panics, reads the empty record.
pub mod Columns
pub mod Totals
pub mod Index
pub mod History
use my_ledger.Common.{
  ℕ, Option, none, some, List, [], ◌∷◌, inc_word, length, get_or, set, push_back,
}
use my_ledger.Common.Int.{pos, add_i64}
use my_ledger.Common.Map.{Map, lookup, insert}
use my_ledger.Base.Ids.{AccountId, AcctHandle, Amount, handle_new}
use my_ledger.Base.Error.{Result, ok, err, ◌>>=◌, ok_or, unknown_account}
use my_ledger.Base.Effect.{Effect, columns}
use my_ledger.Base.Ports.Account.{
  AccountRecord, LedgerTotals, new_record, can_credit, apply_debit, apply_credit,
}

pub record MemoryAccounts : Type 0 where
  pub records : List AccountRecord
  pub ids : List AccountId
  pub index : Map AcctHandle
  pub applied : ℕ

-- `MemoryAccounts::with_capacity`.
abbrev pub no_accounts : MemoryAccounts
no_accounts = record { records = []; ids = []; index = []; applied = 0 }

add_account : MemoryAccounts → AccountId → ℕ → ℕ → MemoryAccounts × AcctHandle
add_account s id ledger flags =
    let handle = handle_new (length s.records) in
    (
      record s {
        records = push_back s.records (new_record ledger flags);
        ids = push_back s.ids id;
        index = insert id handle s.index;
      },
      handle,
    )

-- `MemoryAccounts::open`: an account that is open already keeps its handle.
unfoldable pub open_account : MemoryAccounts → AccountId → ℕ → ℕ → MemoryAccounts × AcctHandle
unfolding add_account
open_account s id ledger flags = elim (lookup id s.index) [
  | some handle ↦ (s, handle)
  | none ↦ add_account s id ledger flags
]

unfoldable pub resolve : MemoryAccounts → AccountId → Option AcctHandle
resolve s id = lookup id s.index

unfoldable pub record_of : MemoryAccounts → AcctHandle → AccountRecord
record_of s handle = get_or s.records handle (new_record 0 0)

abbrev pub with_record : MemoryAccounts → AcctHandle → AccountRecord → MemoryAccounts
with_record s handle r = record s { records = set s.records handle r }

credit_side : MemoryAccounts → AcctHandle → Effect → MemoryAccounts × Result (Unit {0})
credit_side s credit effect = elim (apply_credit (record_of s credit) (columns effect)) [
  | err e ↦ (s, err e)
  | ok r ↦ (record (with_record s credit r) { applied = inc_word 64 s.applied }, ok tt)
]

debit_side : MemoryAccounts → AcctHandle → AcctHandle → Effect → MemoryAccounts × Result (Unit {0})
unfolding credit_side
debit_side s debit credit effect = elim (apply_debit (record_of s debit) (columns effect)) [
  | err e ↦ (s, err e)
  | ok r ↦ credit_side (with_record s debit r) credit effect
]

-- `move_columns`: the far side is asked before the near side is written.
unfoldable pub move_columns :
    MemoryAccounts → AcctHandle → AcctHandle → Effect → MemoryAccounts × Result (Unit {0})
unfolding debit_side
move_columns s debit credit effect = elim (can_credit (record_of s credit) (columns effect)) [
  | err e ↦ (s, err e)
  | ok _ ↦ debit_side s debit credit effect
]

-- `AccountPort::apply`, by the leader's handles.
unfoldable pub apply : MemoryAccounts → Effect → MemoryAccounts × Result (Unit {0})
unfolding move_columns
apply s effect = move_columns s effect.debit effect.credit effect

both_handles : MemoryAccounts → Effect → Result (AcctHandle × AcctHandle)
unfolding resolve
both_handles s effect = do
  debit ← ok_or (resolve s effect.debit_account) (unknown_account effect.debit_account)
  credit ← ok_or (resolve s effect.credit_account) (unknown_account effect.credit_account)
  ok (debit, credit)

-- `MemoryAccounts::replay`, by account ids, as a follower does.
unfoldable pub replay : MemoryAccounts → Effect → MemoryAccounts × Result (Unit {0})
unfolding both_handles move_columns
replay s effect = elim (both_handles s effect) [
  | err e ↦ (s, err e)
  | ok (debit, credit) ↦ move_columns s debit credit effect
]

sum_column : (AccountRecord → Amount) → Amount → List AccountRecord → Amount
sum_column column total [] = total
sum_column column total (r ∷ rs) = sum_column column (add_i64 total (column r)) rs

-- `column_totals`, which `AccountPort::totals` returns.
unfoldable pub totals : MemoryAccounts → LedgerTotals
unfolding sum_column
totals s = record {
  debits_posted = sum_column (λ r. r.debits_posted) (pos 0) s.records;
  credits_posted = sum_column (λ r. r.credits_posted) (pos 0) s.records;
  debits_pending = sum_column (λ r. r.debits_pending) (pos 0) s.records;
  credits_pending = sum_column (λ r. r.credits_pending) (pos 0) s.records;
}
