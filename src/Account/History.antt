-- ===== src/Account/History.antt =====
-- Every store that opens, applies and replays can reach from the empty one.
use my_ledger.Common.{
  ℕ, ◌<◌, ◌^◌, ◌≡◌, refl, sym, ◌∙◌, true, arith, Option-cases, inl, inr, length, All,
}
use my_ledger.Common.Map.{lookup}
use my_ledger.Base.Ids.{AccountId, AcctHandle}
use my_ledger.Base.Effect.{Effect}
use my_ledger.Base.Ports.Account.{balanced}
use my_ledger.Account.{
  MemoryAccounts, no_accounts, open_account, resolve, move_columns, both_handles, apply, replay,
  totals,
}
use my_ledger.Account.Columns.{move_columns_cases, length-after_both, after_both}
use my_ledger.Account.Totals.{
  IsSound, IsSoundRecord, open_account-IsSound, move_columns-IsSound, balanced-totals,
}
use my_ledger.Account.Index.{IsIndexed, open_account-IsIndexed, resolve-lt-length}

-- One call of the component. `AcctHandle` addresses 2^32 accounts; handles come from `resolve`.
pub data Step : MemoryAccounts → MemoryAccounts → Type 0 where
  opens :
      (s : MemoryAccounts) (id : AccountId) (ledger flags : ℕ)
      → length s.records < 2 ^ 32
      → Step s (open_account s id ledger flags).0
  applies :
      (s : MemoryAccounts) (effect : Effect)
      → effect.debit < length s.records
      → effect.credit < length s.records
      → Step s (apply s effect).0
  replays : (s : MemoryAccounts) (effect : Effect) → Step s (replay s effect).0

pub data Reach (s : MemoryAccounts) : MemoryAccounts → Type 0 where
  here : Reach s s
  next : {t u : MemoryAccounts} → Reach s t → Step t u → Reach s u

pub record Inv (s : MemoryAccounts) : Type 0 where
  pub sound : IsSound s
  pub indexed : IsIndexed s

move_columns-Inv :
    (s : MemoryAccounts) (debit credit : AcctHandle) (effect : Effect)
    → debit < length s.records
    → credit < length s.records
    → Inv s
    → Inv (move_columns s debit credit effect).0
move_columns-Inv s debit credit effect debit_open credit_open v = record {
  sound = move_columns-IsSound s debit credit effect debit_open credit_open v.sound;
  indexed = move_columns_cases IsIndexed s debit credit effect debit_open v.indexed λ _. record {
    paired = v.indexed.paired ∙ sym same;
    addressable = rw same v.indexed.addressable;
    leads_back = rw same v.indexed.leads_back;
  };
}
  where
    same : length (after_both s debit credit effect).records ≡ length s.records
    same = length-after_both s debit credit effect

replay-Inv : (s : MemoryAccounts) (effect : Effect) → Inv s → Inv (replay s effect).0
unfolding replay both_handles
replay-Inv s effect v = elim (Option-cases (resolve s effect.debit_account)) [
  | inl e ↦ rw (e, replay, both_handles) v
  | inr (debit, d) ↦ elim (Option-cases (resolve s effect.credit_account)) [
    | inl e ↦ rw (d, e, replay, both_handles) v
    | inr (credit, c) ↦
        rw (d, c, replay, both_handles)
          (move_columns-Inv s debit credit effect
            (resolve-lt-length s effect.debit_account debit v.indexed d)
            (resolve-lt-length s effect.credit_account credit v.indexed c) v)
  ]
]

-- One call keeps the books balanced and the index consistent.
Step-Inv : {s t : MemoryAccounts} → Step s t → Inv s → Inv t
unfolding apply
Step-Inv (opens s id ledger flags room) v = record {
  sound = open_account-IsSound s id ledger flags v.sound;
  indexed = open_account-IsIndexed s id ledger flags room v.indexed;
}
Step-Inv (applies s effect d c) v = move_columns-Inv s effect.debit effect.credit effect d c v
Step-Inv (replays s effect) v = replay-Inv s effect v

Reach-Inv : {s t : MemoryAccounts} → Inv s → Reach s t → Inv t
Reach-Inv v here = v
Reach-Inv v (next r step) = Step-Inv step (Reach-Inv v r)

no_accounts-Inv : Inv no_accounts
unfolding lookup
no_accounts-Inv = record {
  sound = record { ranges = tt; posted = refl; pending = refl };
  indexed = record { paired = refl; addressable = omega arith; leads_back = λ id handle e. cc };
}

-- Double entry, for every history: in a store that any sequence of opens, applies and replays has
-- reached from the empty one, the totals that the component reports balance, both the posted and the
-- pending pair, and no column of any account has left the range 0 .. 2^63 - 1.
pub Reach-balanced :
    {s : MemoryAccounts}
    → Reach no_accounts s
    → (balanced (totals s) ≡ true) × All IsSoundRecord s.records
Reach-balanced {s} r =
    let v = Reach-Inv no_accounts-Inv r in (balanced-totals s v.sound, v.sound.ranges)
