-- ===== src/Pending/Record.antt =====
-- pending/src/block.rs, `encode` and `decode`: the 68 bytes of a record on a block.
pub mod RoundTrip
use my_ledger.Common.{ℕ, ◌+◌, List, ◌++◌, take, drop}
use my_ledger.Common.Int.{pos}
use my_ledger.Common.Bytes.{to_le, from_le, word_of_i64, i64_of_word}
use my_ledger.Base.Ids.{TxId}
use my_ledger.Base.Ports.Pending.{HoldData}

abbrev pub record_bytes : ℕ
record_bytes = 68

-- `BLOCK_BYTES / RECORD_BYTES`.
abbrev pub records_per_block : ℕ
records_per_block = 60

-- What is put, in order. The totals of the hold's group are not.
unfoldable pub encode : TxId → HoldData → List ℕ
encode key hold =
    to_le 16 key
    ++ to_le 8 hold.debit_account
    ++ to_le 8 hold.credit_account
    ++ to_le 8 (word_of_i64 hold.amount)
    ++ to_le 8 (word_of_i64 hold.remaining)
    ++ to_le 4 hold.ledger
    ++ to_le 16 hold.budget

-- A number of so many bytes, and what follows it.
abbrev pub take_number : ℕ → List ℕ → ℕ × List ℕ
take_number width bytes = (from_le (take width bytes), drop width bytes)

unfoldable pub decode : List ℕ → TxId × HoldData
decode bytes =
    let key = take_number 16 bytes in
    let debit = take_number 8 key.1 in
    let credit = take_number 8 debit.1 in
    let amount = take_number 8 credit.1 in
    let remaining = take_number 8 amount.1 in
    let ledger = take_number 4 remaining.1 in
    let budget = take_number 16 ledger.1 in
    (
      key.0,
      record {
        debit_account = debit.0;
        credit_account = credit.0;
        amount = i64_of_word amount.0;
        remaining = i64_of_word remaining.0;
        ledger = ledger.0;
        budget = budget.0;
        budget_members = 0;
        budget_remaining = pos 0;
      },
    )
