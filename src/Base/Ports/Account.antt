-- ===== src/Base/Ports/Account.antt =====
-- base/src/ports/account.rs: the four columns of an account and how they move. The port's own trait is
-- implemented by `Account.Store`.
pub mod Laws
use Prim.Native.Nat.{bit_and, bit_or}
use my_ledger.Common.{ℕ, Bool, Option, none, some, ◌&&◌, ◌==◌, if◌then◌else◌}
use my_ledger.Common.Int.{ℤ, pos, ltb_ℤ, eqb_ℤ, sub_i64, add_i64, checked_add}
use my_ledger.Base.Ids.{Amount}
use my_ledger.Base.Effect.{ColumnDelta}
use my_ledger.Base.Error.{Result, ok, err, ◌>>=◌, ◌>>◌, balance_overflow, column_went_negative}

-- `AccountFlags`, a `u8` of bits.
abbrev pub constrained : ℕ
constrained = 1

unfoldable pub contains : ℕ → ℕ → Bool
contains flags other = bit_and flags other == other

unfoldable pub with_flags : ℕ → ℕ → ℕ
with_flags flags other = bit_or flags other

pub record AccountRecord : Type 0 where
  pub debits_posted : Amount
  pub credits_posted : Amount
  pub debits_pending : Amount
  pub credits_pending : Amount
  pub ledger : ℕ
  pub flags : ℕ

-- `AccountRecord::new`.
abbrev pub new_record : ℕ → ℕ → AccountRecord
new_record ledger flags = record {
  debits_posted = pos 0;
  credits_posted = pos 0;
  debits_pending = pos 0;
  credits_pending = pos 0;
  ledger = ledger;
  flags = flags;
}

unfoldable pub is_constrained : AccountRecord → Bool
unfolding contains
is_constrained r = contains r.flags constrained

-- Pending credits are never spendable.
unfoldable pub available : AccountRecord → Amount
available r = sub_i64 (sub_i64 r.credits_posted r.debits_posted) r.debits_pending

checked : Option Amount → Result (Unit {0})
checked none = err balance_overflow
checked (some total) = if ltb_ℤ total (pos 0) then err column_went_negative else ok tt

unfoldable pub check : Amount → Amount → Result (Unit {0})
unfolding checked checked_add
check value delta = checked (checked_add value delta)

unfoldable pub sum : Amount → Amount → Result Amount
unfolding check
sum value delta = do check value delta; ok (add_i64 value delta)

unfoldable pub can_credit : AccountRecord → ColumnDelta → Result (Unit {0})
unfolding check
can_credit r columns = do
  check r.credits_posted columns.posted
  check r.credits_pending columns.pending

-- The record afterwards, or the refusal that leaves it as it was.
unfoldable pub apply_debit : AccountRecord → ColumnDelta → Result AccountRecord
unfolding sum
apply_debit r columns = do
  posted ← sum r.debits_posted columns.posted
  pending ← sum r.debits_pending columns.pending
  ok (record r { debits_posted = posted; debits_pending = pending })

unfoldable pub apply_credit : AccountRecord → ColumnDelta → Result AccountRecord
unfolding sum
apply_credit r columns = do
  posted ← sum r.credits_posted columns.posted
  pending ← sum r.credits_pending columns.pending
  ok (record r { credits_posted = posted; credits_pending = pending })

pub record LedgerTotals : Type 0 where
  pub debits_posted : Amount
  pub credits_posted : Amount
  pub debits_pending : Amount
  pub credits_pending : Amount

unfoldable pub balanced : LedgerTotals → Bool
balanced t = eqb_ℤ t.debits_posted t.credits_posted && eqb_ℤ t.debits_pending t.credits_pending
