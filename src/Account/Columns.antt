-- ===== src/Account/Columns.antt =====
-- One effect moves both of its accounts by the same delta, or moves nothing at all.
use my_ledger.Common.{
  ◌<◌, ◌≡◌, ◌∙◌, refl, arith, inl, inr, length, get_or-set_self, get_or-set_ne, length-set,
  inc_word, ◌==◌, if◌then◌else◌,
}
use my_ledger.Common.Int.{◌+ℤ◌}
use my_ledger.Base.Ids.{AcctHandle}
use my_ledger.Base.Error.{Result, ok, err, Result-cases}
use my_ledger.Base.Effect.{Effect, columns, ColumnDelta}
use my_ledger.Base.Ports.Account.{AccountRecord, can_credit, apply_debit, apply_credit, new_record}
use my_ledger.Base.Ports.Account.Laws.{IsColumn, sum_lem, check_lem}
use my_ledger.Account.{
  MemoryAccounts, record_of, with_record, credit_side, debit_side, move_columns,
}

-- After a debit side has been written, the credit side answers as it did before.
apply_credit-can_credit :
    (r r' : AccountRecord) (d : ColumnDelta)
    → r'.credits_posted ≡ r.credits_posted
    → r'.credits_pending ≡ r.credits_pending
    → can_credit r d ≡ ok tt
    → apply_credit r' d
      ≡ ok (record r' {
        credits_posted = r'.credits_posted +ℤ d.posted;
        credits_pending = r'.credits_pending +ℤ d.pending;
      })
unfolding can_credit apply_credit
apply_credit-can_credit r r' d p q h = ground (
  arith,
  check_lem r.credits_posted d.posted,
  check_lem r.credits_pending d.pending,
  sum_lem r'.credits_posted d.posted,
  sum_lem r'.credits_pending d.pending,
)

-- What the two sides of an effect add to one account's record.
abbrev pub debited : AccountRecord → ColumnDelta → AccountRecord
debited r d = record r {
  debits_posted = r.debits_posted +ℤ d.posted;
  debits_pending = r.debits_pending +ℤ d.pending;
}

abbrev pub credited : AccountRecord → ColumnDelta → AccountRecord
credited r d = record r {
  credits_posted = r.credits_posted +ℤ d.posted;
  credits_pending = r.credits_pending +ℤ d.pending;
}

abbrev pub after_debit : MemoryAccounts → AcctHandle → Effect → MemoryAccounts
after_debit s debit effect = with_record s debit (debited (record_of s debit) (columns effect))

abbrev pub after_both : MemoryAccounts → AcctHandle → AcctHandle → Effect → MemoryAccounts
after_both s debit credit effect =
    let s' = after_debit s debit effect in
    record (with_record s' credit (credited (record_of s' credit) (columns effect))) {
      applied = inc_word 64 s.applied;
    }

-- The four columns that a delta reaches stay in range.
pub record Fits (debit credit : AccountRecord) (d : ColumnDelta) : Type 0 where
  pub debits_posted_fits : IsColumn (debit.debits_posted +ℤ d.posted)
  pub debits_pending_fits : IsColumn (debit.debits_pending +ℤ d.pending)
  pub credits_posted_fits : IsColumn (credit.credits_posted +ℤ d.posted)
  pub credits_pending_fits : IsColumn (credit.credits_pending +ℤ d.pending)

-- How a call that moves both columns may end: everything moved, or nothing changed.
abbrev pub Moved :
    MemoryAccounts → AcctHandle → AcctHandle → Effect → MemoryAccounts × Result (Unit {0}) → Type 0
Moved s debit credit effect (s', ok _) =
    (s' ≡ after_both s debit credit effect)
    × Fits (record_of s debit) (record_of s credit) (columns effect)
Moved s debit credit effect (s', err _) = s' ≡ s

pub apply_debit-eq :
    (r r' : AccountRecord) (d : ColumnDelta) → apply_debit r d ≡ ok r' → r' ≡ debited r d
unfolding apply_debit
apply_debit-eq r r' d h =
    ground (arith, sum_lem r.debits_posted d.posted, sum_lem r.debits_pending d.pending)

both-Fits :
    (debit credit r : AccountRecord) (d : ColumnDelta)
    → apply_debit debit d ≡ ok r
    → can_credit credit d ≡ ok tt
    → Fits debit credit d
unfolding apply_debit can_credit
both-Fits debit credit r d moved can = ground (
  arith,
  sum_lem debit.debits_posted d.posted,
  sum_lem debit.debits_pending d.pending,
  check_lem credit.credits_posted d.posted,
  check_lem credit.credits_pending d.pending,
)

-- Writing a debit side leaves every credit column in place, its own account's too.
pub record_of-with_record :
    (s : MemoryAccounts) (i j : AcctHandle) (r : AccountRecord)
    → i < length s.records
    → record_of (with_record s i r) j ≡ (if i == j then r else record_of s j)
unfolding record_of
record_of-with_record s i j r h = ground (
  arith,
  get_or-set_self s.records i r (new_record 0 0) h,
  get_or-set_ne s.records i j r (new_record 0 0),
)

credit_side-Moved :
    (s : MemoryAccounts) (debit credit : AcctHandle) (effect : Effect)
    → debit < length s.records
    → can_credit (record_of s credit) (columns effect) ≡ ok tt
    → credit_side (after_debit s debit effect) credit effect
      ≡ (after_both s debit credit effect, ok tt)
unfolding credit_side
credit_side-Moved s debit credit effect h can =
    let d = debited (record_of s debit) (columns effect) in
    ground (
      arith,
      record_of-with_record s debit credit d h,
      apply_credit-can_credit (record_of s credit) (record_of (after_debit s debit effect) credit)
          (columns effect),
    )

debit_side-Moved :
    (s : MemoryAccounts) (debit credit : AcctHandle) (effect : Effect)
    → debit < length s.records
    → can_credit (record_of s credit) (columns effect) ≡ ok tt
    → Moved s debit credit effect (debit_side s debit credit effect)
unfolding debit_side
debit_side-Moved s debit credit effect h can =
    elim (Result-cases (apply_debit (record_of s debit) (columns effect))) [
      | inr (e, refused) ↦ rw (refused, debit_side) refl
      | inl (r, moved) ↦
          rw (moved, debit_side, apply_debit-eq (record_of s debit) r (columns effect) moved)
            (rw (credit_side-Moved s debit credit effect h can) (
              refl,
              both-Fits (record_of s debit) (record_of s credit) r (columns effect) moved can,
            ))
    ]

-- With the debit handle in range, `move_columns` ends with both sides moved by exactly the delta of
-- the effect and one more effect counted, or with an error and the whole store as it was.
pub move_columns-Moved :
    (s : MemoryAccounts) (debit credit : AcctHandle) (effect : Effect)
    → debit < length s.records
    → Moved s debit credit effect (move_columns s debit credit effect)
unfolding move_columns
move_columns-Moved s debit credit effect h =
    elim (Result-cases (can_credit (record_of s credit) (columns effect))) [
      | inr (e, refused) ↦ rw (refused, move_columns) refl
      | inl (_, can) ↦ rw (can, move_columns) (debit_side-Moved s debit credit effect h can)
    ]

pub length-after_both :
    (s : MemoryAccounts) (debit credit : AcctHandle) (effect : Effect)
    → length (after_both s debit credit effect).records ≡ length s.records
length-after_both s debit credit effect =
    length-set (after_debit s debit effect).records credit _ ∙ length-set s.records debit _

-- What holds of the store as it was and of the store with both sides moved holds of what is left.
pub move_columns_cases {ℓ} :
    (P : MemoryAccounts → Type ℓ) (s : MemoryAccounts) (debit credit : AcctHandle) (effect : Effect)
    → debit < length s.records
    → P s
    → (Fits (record_of s debit) (record_of s credit) (columns effect)
        → P (after_both s debit credit effect))
    → P (move_columns s debit credit effect).0
move_columns_cases P s debit credit effect h kept moved =
    ended (move_columns s debit credit effect) (move_columns-Moved s debit credit effect h)
  where
    ended : (r : MemoryAccounts × Result (Unit {0})) → Moved s debit credit effect r → P r.0
    ended (s', ok _) m = rw m.0 (moved m.1)
    ended (s', err _) m = rw m kept
