-- ===== src/Base/Error.antt =====
-- base/src/error.rs, `LedgerError`, and the `Result` and `?` of the code that returns one.
use my_ledger.Base.Ids.{AccountId, Amount, Seq, TxId}
use my_ledger.Common.{Option, none, some, Bool, true, false, ◌≡◌, ◌⊎◌, inl, inr, refl}

pub data LedgerError : Type 0 where
  invalid_flags reserved_transaction_id invalid_amount same_account : LedgerError
  unknown_account : AccountId → LedgerError
  ledger_mismatch missing_pending_ref unexpected_pending_ref : LedgerError
  -- expected, got
  seq_gap : Seq → Seq → LedgerError
  account_quarantined : AccountId → LedgerError
  fail_stop : LedgerError
  -- available, requested
  insufficient_balance : Amount → Amount → LedgerError
  pending_ref_not_found : TxId → LedgerError
  pending_ref_mismatch pending_ref_already_resolved : LedgerError
  -- remaining, requested
  settle_exceeds_remaining : Amount → Amount → LedgerError
  duplicate_request duplicate_different_body : LedgerError
  linked_chain_too_long linked_chain_unterminated quarantine_draining config_invalid : LedgerError
  shared_budget_group_required partial_resolution_not_allowed : LedgerError
  shared_budget_group_incomplete balance_overflow column_went_negative : LedgerError
  raft_commit_failed overloaded : LedgerError

pub data Result {ℓ} (A : Type ℓ) : Type ℓ where
  ok : A → Result A
  err : LedgerError → Result A

abbrev pub is_ok {ℓ} : {A : Type ℓ} → Result A → Bool
is_ok (ok _) = true
is_ok (err _) = false

-- `?`: the first error is the answer.
infixl 5 ◌>>=◌
abbrev pub ◌>>=◌ {ℓ κ} : {A : Type ℓ} {B : Type κ} → Result A → (A → Result B) → Result B
err failure >>= next = err failure
ok value >>= next = next value

-- `Option::ok_or`.
abbrev pub ok_or {ℓ} : {A : Type ℓ} → Option A → LedgerError → Result A
ok_or none e = err e
ok_or (some a) e = ok a

-- `if test { return Err(e) }`.
abbrev pub refuse_if : Bool → LedgerError → Result (Unit {0})
refuse_if true e = err e
refuse_if false e = ok tt

-- A check, and what is done once it has passed.
infixl 5 ◌>>◌
abbrev pub ◌>>◌ {ℓ} : {A : Type ℓ} → Result (Unit {0}) → Result A → Result A
check >> rest = check >>= λ _. rest

pub Result-cases {ℓ} :
    {A : Type ℓ} (r : Result A) → ((a : A) × (r ≡ ok a)) ⊎ ((e : LedgerError) × (r ≡ err e))
Result-cases (err failure) = inr (failure, refl)
Result-cases (ok value) = inl (value, refl)
