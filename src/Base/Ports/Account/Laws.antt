-- ===== src/Base/Ports/Account/Laws.antt =====
-- A column never leaves the range 0 .. 2^63 - 1, and moves by exactly the delta or not at all.
use my_ledger.Common.{◌≡◌, arith, ◌^◌, if◌then◌else◌}
use my_ledger.Common.Int.{pos, ◌+ℤ◌, ◌≤ℤ◌, ◌<ℤ◌, checked_add, fits_i64, ltb_ℤ, add_i64-eq}
use my_ledger.Base.Ids.{Amount}
use my_ledger.Base.Error.{ok, err, balance_overflow, column_went_negative}
use my_ledger.Base.Ports.Account.{check, sum}

abbrev pub IsColumn : Amount → Type 0
IsColumn a = (pos 0 ≤ℤ a) × (a <ℤ pos (2 ^ 63))

-- `sum` adds exactly, or says which end of the range it would leave.
pub sum_lem :
    (value delta : Amount)
    → sum value delta ≡ (
        if fits_i64 (value +ℤ delta)
        then (if ltb_ℤ (value +ℤ delta) (pos 0)
            then err column_went_negative
            else ok (value +ℤ delta))
        else err balance_overflow)
unfolding sum check checked_add
sum_lem value delta = ground (arith, add_i64-eq value delta)

pub check_lem :
    (value delta : Amount)
    → check value delta ≡ (
        if fits_i64 (value +ℤ delta)
        then (if ltb_ℤ (value +ℤ delta) (pos 0) then err column_went_negative else ok tt)
        else err balance_overflow)
unfolding check checked_add
check_lem value delta = ground arith
