-- ===== src/Examples/Account.antt =====
-- account: two accounts and the effects between them.
use my_ledger.Common.{◌≡◌, refl, true, arith, All}
use my_ledger.Common.Map.{lookup}
use my_ledger.Base.Ports.Account.{balanced}
use my_ledger.Account.{no_accounts, open_account, resolve, move_columns, replay, totals}
use my_ledger.Account.Columns.{Moved, move_columns-Moved}
use my_ledger.Account.Totals.{IsSoundRecord}
use my_ledger.Account.Index.{IsIndexed, open_account-fresh}
use my_ledger.Account.History.{here, next, opens, replays, Reach-balanced}
use my_ledger.Examples.Data.{two_accounts, payment}

move_columns-Moved_example : Moved two_accounts 0 1 payment (move_columns two_accounts 0 1 payment)
move_columns-Moved_example = move_columns-Moved two_accounts 0 1 payment (omega arith)

Reach-balanced_example :
    (balanced (totals (replay (open_account no_accounts 7 1 1).0 payment).0) ≡ true)
    × All IsSoundRecord (replay (open_account no_accounts 7 1 1).0 payment).0.records
Reach-balanced_example = Reach-balanced (
    next (next here (opens no_accounts 7 1 1 (omega arith)))
      (replays (open_account no_accounts 7 1 1).0 payment))

open_account-fresh_example :
    ((open_account two_accounts 11 1 0).1 ≡ 2)
    × (resolve (open_account two_accounts 11 1 0).0 7 ≡ resolve two_accounts 7)
unfolding lookup
open_account-fresh_example = open_account-fresh two_accounts 11 7 1 0 (omega arith) refl

two_accounts-IsIndexed : IsIndexed two_accounts
unfolding lookup
two_accounts-IsIndexed = record {
  paired = refl;
  addressable = omega arith;
  leads_back = λ id handle e. ground arith;
}
