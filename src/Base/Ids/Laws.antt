-- ===== src/Base/Ids/Laws.antt =====
-- The reserved half of the transaction ids (base/src/ids.rs, `TxId`).
use my_ledger.Common.{◌^◌, ◌<◌, ◌≡◌, ◌≢◌, true, false, arith}
use my_ledger.Base.Ids.{TxId, is_ledger_origin, expiry_void_of}

-- The void derived from a client's hold lies in the reserved half and stays a 128-bit id, and so it
-- differs from every id that a client may use.
pub expiry_void_of-IsReserved :
    (hold id : TxId)
    → hold < 2 ^ 128
    → is_ledger_origin id ≡ false
    → (is_ledger_origin (expiry_void_of hold) ≡ true)
      × (expiry_void_of hold < 2 ^ 128)
      × (expiry_void_of hold ≢ id)
unfolding is_ledger_origin expiry_void_of
expiry_void_of-IsReserved hold id bound i = ground arith

-- Two different holds of clients never derive the same void.
pub expiry_void_of-injective :
    (hold other : TxId)
    → is_ledger_origin hold ≡ false
    → is_ledger_origin other ≡ false
    → expiry_void_of hold ≡ expiry_void_of other
    → hold ≡ other
unfolding is_ledger_origin expiry_void_of
expiry_void_of-injective hold other h o e = ground arith
