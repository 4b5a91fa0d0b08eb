-- ===== src/Pending/Record/RoundTrip.antt =====
-- A record that is written is read back.
use my_ledger.Common.{◌<◌, ◌^◌, ◌≡◌, length, length-append}
use my_ledger.Common.Int.{pos, IsI64}
use my_ledger.Common.Bytes.{
  to_le, from_le, from_le-to_le, length-to_le, word_of_i64, i64_of_word, i64_of_word-word_of_i64,
  word_of_i64-lt,
}
use my_ledger.Base.Ids.{TxId}
use my_ledger.Base.Ports.Pending.{HoldData}
use my_ledger.Pending.Record.{encode, decode, record_bytes}

-- Every field within the width of its type.
pub record IsHoldData (hold : HoldData) : Type 0 where
  pub debit_fits : hold.debit_account < 256 ^ 8
  pub credit_fits : hold.credit_account < 256 ^ 8
  pub amount_fits : IsI64 hold.amount
  pub remaining_fits : IsI64 hold.remaining
  pub ledger_fits : hold.ledger < 256 ^ 4
  pub budget_fits : hold.budget < 256 ^ 16

-- The hold as a record can answer for it.
abbrev pub without_group : HoldData → HoldData
without_group hold = record hold { budget_members = 0; budget_remaining = pos 0 }

length-encode : (key : TxId) (hold : HoldData) → length (encode key hold) ≡ record_bytes
unfolding encode
length-encode key hold = simp (
  length-append,
  length-to_le 16 key,
  length-to_le 8 hold.debit_account,
  length-to_le 8 hold.credit_account,
  length-to_le 8 (word_of_i64 hold.amount),
  length-to_le 8 (word_of_i64 hold.remaining),
  length-to_le 4 hold.ledger,
  length-to_le 16 hold.budget,
)

-- A record takes 68 bytes, and decoding them gives back the key and the hold, all but the totals of its
-- group, which read zero.
pub decode-encode :
    (key : TxId) (hold : HoldData)
    → key < 256 ^ 16
    → IsHoldData hold
    → (length (encode key hold) ≡ record_bytes)
      × (decode (encode key hold) ≡ (key, without_group hold))
unfolding decode encode from_le i64_of_word to_le
decode-encode key hold key_fits fits = (length-encode key hold, decoded)
  where
    decoded : decode (encode key hold) ≡ (key, without_group hold)
    decoded = simp (
      from_le-to_le 16 key key_fits,
      from_le-to_le 8 hold.debit_account fits.debit_fits,
      from_le-to_le 8 hold.credit_account fits.credit_fits,
      from_le-to_le 8 (word_of_i64 hold.amount) (word_of_i64-lt hold.amount),
      from_le-to_le 8 (word_of_i64 hold.remaining) (word_of_i64-lt hold.remaining),
      from_le-to_le 4 hold.ledger fits.ledger_fits,
      from_le-to_le 16 hold.budget fits.budget_fits,
      i64_of_word-word_of_i64 hold.amount fits.amount_fits,
      i64_of_word-word_of_i64 hold.remaining fits.remaining_fits,
    )
