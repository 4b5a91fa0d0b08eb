-- ===== src/Account/Totals.antt =====
-- Double entry: the debit columns of all accounts sum to what the credit columns sum to, and no column
-- leaves its range, through every open, apply and replay.
use my_ledger.Common.{
  ℕ, zero, suc, ◌<◌, ◌≡◌, ◌∙◌, refl, sym, ap, true, arith, inl, inr, List, [], ◌∷◌, ◌++◌, length,
  get_or, set, length-set, All, All-append, ◌==◌, Option-cases, Bool-cases, ==_iff,
}
use my_ledger.Common.Int.{
  ℤ, pos, parts_of_eq, ◌+ℤ◌, int_laws, wrap_i64, wrap_i64-eq, add_i64, eqb_ℤ,
}
use my_ledger.Common.Map.{lookup}
use my_ledger.Base.Ids.{AcctHandle, Amount, AccountId}
use my_ledger.Base.Effect.{Effect, columns}
use my_ledger.Base.Ports.Account.{AccountRecord, new_record, balanced}
use my_ledger.Base.Ports.Account.Laws.{IsColumn}
use my_ledger.Account.{
  MemoryAccounts, open_account, add_account, record_of, move_columns, totals, sum_column,
}
use my_ledger.Account.Columns.{
  debited, credited, after_debit, after_both, Fits, move_columns_cases, record_of-with_record,
}

-- The exact sum of a column.
abbrev pub exact_sum : (AccountRecord → Amount) → List AccountRecord → ℤ
exact_sum column [] = pos 0
exact_sum column (r ∷ rs) = column r +ℤ exact_sum column rs

add_i64-wrap_i64 : (a b : ℤ) → add_i64 (wrap_i64 a) b ≡ wrap_i64 (a +ℤ b)
unfolding add_i64 wrap_i64 ◌+ℤ◌
add_i64-wrap_i64 a b = ground arith

sum_column-wrap :
    (column : AccountRecord → Amount) (total : ℤ) (rs : List AccountRecord)
    → sum_column column (wrap_i64 total) rs ≡ wrap_i64 (total +ℤ exact_sum column rs)
unfolding sum_column
sum_column-wrap column total [] = ap wrap_i64 (omega int_laws)
sum_column-wrap column total (r ∷ rs) =
    rw (add_i64-wrap_i64 total (column r), sum_column-wrap column (total +ℤ column r) rs)
      (ap wrap_i64 (omega int_laws))

exact_sum-set :
    (column : AccountRecord → Amount) (rs : List AccountRecord) (i : ℕ) (r : AccountRecord)
    → i < length rs
    → exact_sum column (set rs i r) +ℤ column (get_or rs i (new_record 0 0))
      ≡ exact_sum column rs +ℤ column r
exact_sum-set column [] i r h = elim h [ ]
exact_sum-set column (x ∷ rs) zero r h = omega int_laws
exact_sum-set column (x ∷ rs) (suc i) r h =
    omega (int_laws, parts_of_eq (exact_sum-set column rs i r (omega arith)))

exact_sum-append :
    (column : AccountRecord → Amount) (rs qs : List AccountRecord)
    → exact_sum column (rs ++ qs) ≡ exact_sum column rs +ℤ exact_sum column qs
exact_sum-append column [] qs = omega int_laws
exact_sum-append column (r ∷ rs) qs = omega (int_laws, parts_of_eq (exact_sum-append column rs qs))

pub record IsSoundRecord (r : AccountRecord) : Type 0 where
  pub debits_posted_in : IsColumn r.debits_posted
  pub credits_posted_in : IsColumn r.credits_posted
  pub debits_pending_in : IsColumn r.debits_pending
  pub credits_pending_in : IsColumn r.credits_pending

-- Each pair of columns balances, and every column is in range.
pub record IsSound (s : MemoryAccounts) : Type 0 where
  pub ranges : All IsSoundRecord s.records
  pub posted :
      exact_sum (λ r. r.debits_posted) s.records ≡ exact_sum (λ r. r.credits_posted) s.records
  pub pending :
      exact_sum (λ r. r.debits_pending) s.records ≡ exact_sum (λ r. r.credits_pending) s.records

All-set {ℓ κ} :
    {A : Type ℓ} (P : A → Type κ) (xs : List A) (i : ℕ) (v : A)
    → All P xs
    → P v
    → All P (set xs i v)
All-set P [] i v h p = h
All-set P (x ∷ xs) zero v h p = (p, h.1)
All-set P (x ∷ xs) (suc i) v h p = (h.0, All-set P xs i v h.1 p)

All-get_or {ℓ κ} :
    {A : Type ℓ} (P : A → Type κ) (xs : List A) (i : ℕ) (d : A) → All P xs → P d → P (get_or xs i d)
All-get_or P [] i d h p = p
All-get_or P (x ∷ xs) zero d h p = h.0
All-get_or P (x ∷ xs) (suc i) d h p = All-get_or P xs i d h.1 p

sum_column-eq :
    (column : AccountRecord → Amount) (rs : List AccountRecord)
    → sum_column column (pos 0) rs ≡ wrap_i64 (exact_sum column rs)
sum_column-eq column rs =
    ap (λ t. sum_column column t rs) (sym (wrap_i64-eq (pos 0) (omega arith)))
    ∙ sum_column-wrap column (pos 0) rs
    ∙ ap wrap_i64 (omega int_laws)

eqb_ℤ_refl : (a : ℤ) → eqb_ℤ a a ≡ true
eqb_ℤ_refl a = ground arith

-- The sums that `totals` reports balance whenever the exact ones do, even where they wrap.
pub balanced-totals : (s : MemoryAccounts) → IsSound s → balanced (totals s) ≡ true
unfolding balanced totals
balanced-totals s v =
    rw
      (
        sum_column-eq (λ r. r.debits_posted) s.records,
        sum_column-eq (λ r. r.credits_posted) s.records,
        sum_column-eq (λ r. r.debits_pending) s.records,
        sum_column-eq (λ r. r.credits_pending) s.records,
        v.posted,
        v.pending,
        eqb_ℤ_refl (wrap_i64 (exact_sum (λ r. r.credits_posted) s.records)),
      )
      (eqb_ℤ_refl (wrap_i64 (exact_sum (λ r. r.credits_pending) s.records)))

exact_sum-move :
    (column : AccountRecord → Amount) (rs : List AccountRecord) (i : ℕ) (r : AccountRecord) (d : ℤ)
    → i < length rs
    → column r ≡ column (get_or rs i (new_record 0 0)) +ℤ d
    → exact_sum column (set rs i r) ≡ exact_sum column rs +ℤ d
exact_sum-move column rs i r d h e =
    omega (int_laws, parts_of_eq (exact_sum-set column rs i r h), parts_of_eq e)

+ℤ_zero : (a : ℤ) → a ≡ a +ℤ pos 0
+ℤ_zero a = omega int_laws

module _ (s : MemoryAccounts) (debit credit : AcctHandle) (effect : Effect)
    (debit_open : debit < length s.records) (credit_open : credit < length s.records) where
  abbrev s' : MemoryAccounts
  s' = after_debit s debit effect

  credit_open' : credit < length s'.records
  credit_open' =
      rw (length-set s.records debit (debited (record_of s debit) (columns effect))) credit_open

  exact_sum-after_both :
      (column : AccountRecord → Amount) (d₁ d₂ : ℤ)
      → column (debited (record_of s debit) (columns effect)) ≡ column (record_of s debit) +ℤ d₁
      → column (credited (record_of s' credit) (columns effect))
        ≡ column (record_of s' credit) +ℤ d₂
      → exact_sum column (after_both s debit credit effect).records
        ≡ exact_sum column s.records +ℤ d₁ +ℤ d₂
  unfolding record_of
  exact_sum-after_both column d₁ d₂ e₁ e₂ =
      exact_sum-move column s'.records credit _ d₂ credit_open' e₂
      ∙ ap (λ t. t +ℤ d₂) (exact_sum-move column s.records debit _ d₁ debit_open e₁)

  record_of-IsSoundRecord : (handle : AcctHandle) → IsSound s → IsSoundRecord (record_of s handle)
  unfolding record_of
  record_of-IsSoundRecord handle v =
      All-get_or IsSoundRecord s.records handle (new_record 0 0) v.ranges (omega arith)

  debited-IsSoundRecord :
      IsSound s
      → Fits (record_of s debit) (record_of s credit) (columns effect)
      → IsSoundRecord (debited (record_of s debit) (columns effect))
  debited-IsSoundRecord v f = omega (arith, record_of-IsSoundRecord debit v)

  credited-IsSoundRecord :
      IsSound s
      → Fits (record_of s debit) (record_of s credit) (columns effect)
      → IsSoundRecord (credited (record_of s' credit) (columns effect))
  credited-IsSoundRecord v f =
      rw
        (record_of-with_record s debit credit (debited (record_of s debit) (columns effect))
          debit_open)
        (elim (Bool-cases (debit == credit)) [
          | inl same ↦ rw same (
              ground (
                arith,
                record_of-IsSoundRecord credit v,
                debited-IsSoundRecord v f,
                (==_iff debit credit).0 same,
              ))
          | inr other ↦ rw other (omega (arith, record_of-IsSoundRecord credit v))
        ])

  after_both-IsSound :
      IsSound s
      → Fits (record_of s debit) (record_of s credit) (columns effect)
      → IsSound (after_both s debit credit effect)
  after_both-IsSound v f = record {
    ranges =
        All-set IsSoundRecord s'.records credit _
          (All-set IsSoundRecord s.records debit _ v.ranges (debited-IsSoundRecord v f))
          (credited-IsSoundRecord v f);
    posted =
        rw
          (
            exact_sum-after_both (λ r. r.debits_posted) (columns effect).posted (pos 0) refl
                (+ℤ_zero _),
            exact_sum-after_both (λ r. r.credits_posted) (pos 0) (columns effect).posted (+ℤ_zero _)
                refl,
            v.posted,
          )
          (omega int_laws);
    pending =
        rw
          (
            exact_sum-after_both (λ r. r.debits_pending) (columns effect).pending (pos 0) refl
                (+ℤ_zero _),
            exact_sum-after_both (λ r. r.credits_pending) (pos 0) (columns effect).pending
                (+ℤ_zero _) refl,
            v.pending,
          )
          (omega int_laws);
  }

-- Whatever the effect, moving the columns of two open accounts keeps the ledger sound.
pub move_columns-IsSound :
    (s : MemoryAccounts) (debit credit : AcctHandle) (effect : Effect)
    → debit < length s.records
    → credit < length s.records
    → IsSound s
    → IsSound (move_columns s debit credit effect).0
move_columns-IsSound s debit credit effect debit_open credit_open v =
    move_columns_cases IsSound s debit credit effect debit_open v
      (after_both-IsSound s debit credit effect debit_open credit_open v)

add_account-IsSound :
    (s : MemoryAccounts) (id : AccountId) (ledger flags : ℕ)
    → IsSound s
    → IsSound (add_account s id ledger flags).0
unfolding add_account
add_account-IsSound s id ledger flags v = record {
  ranges =
      All-append IsSoundRecord s.records (new_record ledger flags ∷ []) v.ranges (omega arith, tt);
  posted = rw (
    exact_sum-append (λ r. r.debits_posted) s.records (new_record ledger flags ∷ []),
    exact_sum-append (λ r. r.credits_posted) s.records (new_record ledger flags ∷ []),
    v.posted,
  );
  pending = rw (
    exact_sum-append (λ r. r.debits_pending) s.records (new_record ledger flags ∷ []),
    exact_sum-append (λ r. r.credits_pending) s.records (new_record ledger flags ∷ []),
    v.pending,
  );
}

pub open_account-IsSound :
    (s : MemoryAccounts) (id : AccountId) (ledger flags : ℕ)
    → IsSound s
    → IsSound (open_account s id ledger flags).0
unfolding open_account
open_account-IsSound s id ledger flags v = elim (Option-cases (lookup id s.index)) [
  | inl fresh ↦ rw (fresh, open_account) (add_account-IsSound s id ledger flags v)
  | inr (handle, known) ↦ rw (known, open_account) v
]
