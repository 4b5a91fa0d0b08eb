-- ===== src/Examples/Base.antt =====
-- base: ids and transfers.
use my_ledger.Common.{◌^◌, ◌<◌, ◌≡◌, ◌≢◌, ◌↔◌, refl, true, arith}
use my_ledger.Base.Ids.{is_ledger_origin, expiry_void_of}
use my_ledger.Base.Ids.Laws.{expiry_void_of-IsReserved}
use my_ledger.Base.Error.{ok}
use my_ledger.Base.Transfer.{TransferKind, validate}
use my_ledger.Base.Transfer.Laws.{IsWellShaped, validate_iff}
use my_ledger.Examples.Data.{pay_transfer}

expiry_void_of-IsReserved_example :
    (is_ledger_origin (expiry_void_of 5) ≡ true)
    × (expiry_void_of 5 < 2 ^ 128)
    × (expiry_void_of 5 ≢ 6)
unfolding is_ledger_origin
expiry_void_of-IsReserved_example = expiry_void_of-IsReserved 5 6 (omega arith) refl

validate_iff_example :
    (validate pay_transfer ≡ ok TransferKind.single_phase)
    ↔ IsWellShaped pay_transfer TransferKind.single_phase
validate_iff_example = validate_iff pay_transfer TransferKind.single_phase
