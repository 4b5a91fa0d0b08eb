-- ===== src/Sequencer/Reactor/Judge/Funds.antt =====
-- No constrained account promises more than it has: what the judge, a commit and a roll back do to an
-- account's committed columns and its lane's overlay together.
use my_ledger.Common.{
  ◌<◌, ◌≡◌, ◌∙◌, refl, arith, Bool, true, false, ◌==◌, if◌then◌else◌, inl, inr, Bool-cases, length,
  length-set, ==_iff,
}
use my_ledger.Common.Int.{
  ℤ, pos, IsI64, ◌+ℤ◌, ◌-ℤ◌, ◌≤ℤ◌, int_laws, int_ranges, add_i64-eq, sub_i64-eq, eqb_ℤ, pos_part,
  neg_part,
}
use my_ledger.Base.Ids.{AcctHandle, Amount}
use my_ledger.Base.Error.{Result, ok, err}
use my_ledger.Base.Effect.{Effect, EffectKind, columns, delta, reservation, reserved}
use my_ledger.Base.Ports.Account.{AccountRecord, available, is_constrained}
use my_ledger.Account.{MemoryAccounts, record_of, move_columns, apply}
use my_ledger.Account.Columns.{
  after_both, after_debit, debited, credited, record_of-with_record, move_columns-Moved,
  move_columns_cases, Moved,
}
use my_ledger.Sequencer.State.Lane.{
  LaneTable, get, reserve, release, reserve_amount, release_amount,
}
use my_ledger.Sequencer.State.Lane.Overlay.{get-update}
use my_ledger.Sequencer.State.Pipeline.{WorkItem}
use my_ledger.Sequencer.Reactor.Judge.{direct_effect, spendable, direct}

-- What an account's committed columns are worth, exactly.
abbrev pub worth : AccountRecord → ℤ
worth r = r.credits_posted -ℤ r.debits_posted -ℤ r.debits_pending

-- What it may still promise, exactly.
unfoldable pub funds : MemoryAccounts → LaneTable → AcctHandle → ℤ
funds accounts lanes handle = worth (record_of accounts handle) +ℤ (get lanes handle).speculative

available-worth :
    (r : AccountRecord)
    → IsI64 (r.credits_posted -ℤ r.debits_posted)
    → IsI64 (worth r)
    → available r ≡ worth r
unfolding available
available-worth r h k =
    rw (sub_i64-eq r.credits_posted r.debits_posted h)
      (sub_i64-eq (r.credits_posted -ℤ r.debits_posted) r.debits_pending k)

-- No sum that the judge forms wraps.
pub record InRange (accounts : MemoryAccounts) (lanes : LaneTable) (handle : AcctHandle)
    : Type 0 where
  pub posted_fits :
      IsI64
        ((record_of accounts handle).credits_posted -ℤ (record_of accounts handle).debits_posted)
  pub worth_fits : IsI64 (worth (record_of accounts handle))
  pub funds_fits : IsI64 (funds accounts lanes handle)

plus_zero : (a : ℤ) → a +ℤ pos 0 ≡ a
plus_zero a = omega int_laws

spendable-funds :
    (accounts : MemoryAccounts) (lanes : LaneTable) (handle : AcctHandle)
    → InRange accounts lanes handle
    → spendable accounts lanes handle (pos 0) ≡ funds accounts lanes handle
unfolding spendable funds
spendable-funds accounts lanes handle v =
    rw
      (
        available-worth (record_of accounts handle) v.posted_fits v.worth_fits,
        add_i64-eq (worth (record_of accounts handle)) (get lanes handle).speculative v.funds_fits,
      )
      (add_i64-eq (worth (record_of accounts handle) +ℤ (get lanes handle).speculative) (pos 0)
          (rw (plus_zero (funds accounts lanes handle)) v.funds_fits)
        ∙ plus_zero (funds accounts lanes handle))

cost_le :
    (kind : EffectKind) (amount : Amount)
    → pos 0 ≤ℤ amount
    → IsI64 amount
    → ((delta kind amount).posted +ℤ (delta kind amount).pending ≤ℤ reserved kind amount)
      × (pos 0 ≤ℤ (delta kind amount).posted)
unfolding delta reserved
cost_le EffectKind.post amount h i = (omega int_laws, omega int_laws)
cost_le EffectKind.hold amount h i = (omega int_laws, omega int_laws)
cost_le EffectKind.settle amount h i =
    rw (sub_i64-eq (pos 0) amount (omega int_ranges)) (omega int_laws, omega int_laws)
cost_le EffectKind.void amount h i =
    rw (sub_i64-eq (pos 0) amount (omega int_ranges)) (omega int_laws, omega int_laws)

plus_nothing : (a r : ℤ) → eqb_ℤ r (pos 0) ≡ true → a +ℤ r ≡ a
plus_nothing a r e = omega (int_laws, sub_of_test r e)
  where
    sub_of_test : (r : ℤ) → eqb_ℤ r (pos 0) ≡ true → pos_part r ≡ neg_part r
    sub_of_test r e = ground arith

minus_nothing : (a r : ℤ) → eqb_ℤ r (pos 0) ≡ true → a -ℤ r ≡ a
minus_nothing a r e = omega (int_laws, sub_of_test r e)
  where
    sub_of_test : (r : ℤ) → eqb_ℤ r (pos 0) ≡ true → pos_part r ≡ neg_part r
    sub_of_test r e = ground arith

pub speculative-release :
    (lanes : LaneTable) (effect : Effect) (handle : AcctHandle)
    → IsI64 ((get lanes effect.debit).speculative +ℤ reservation effect)
    → (get (release lanes effect) handle).speculative ≡ (
        if effect.debit == handle
        then (get lanes effect.debit).speculative +ℤ reservation effect
        else (get lanes handle).speculative)
unfolding release release_amount
speculative-release lanes effect handle i = ground (
  arith,
  get-update lanes effect.debit handle (λ lane. release_amount lane (reservation effect)),
  add_i64-eq (get lanes effect.debit).speculative (reservation effect) i,
  plus_nothing (get lanes effect.debit).speculative (reservation effect),
)

pub speculative-reserve :
    (lanes : LaneTable) (effect : Effect) (handle : AcctHandle)
    → IsI64 ((get lanes effect.debit).speculative -ℤ reservation effect)
    → (get (reserve lanes effect) handle).speculative ≡ (
        if effect.debit == handle
        then (get lanes effect.debit).speculative -ℤ reservation effect
        else (get lanes handle).speculative)
unfolding reserve reserve_amount
speculative-reserve lanes effect handle i = ground (
  arith,
  get-update lanes effect.debit handle (λ lane. reserve_amount lane (reservation effect)),
  sub_i64-eq (get lanes effect.debit).speculative (reservation effect) i,
  minus_nothing (get lanes effect.debit).speculative (reservation effect),
)

worth-after_debit :
    (s : MemoryAccounts) (debit handle : AcctHandle) (effect : Effect)
    → debit < length s.records
    → worth (record_of (after_debit s debit effect) handle)
      ≡ worth (record_of s handle)
        -ℤ (if debit == handle then (columns effect).posted +ℤ (columns effect).pending else pos 0)
worth-after_debit s debit handle effect h =
    rw (record_of-with_record s debit handle (debited (record_of s debit) (columns effect)) h)
      (elim (Bool-cases (debit == handle)) [
        | inl same ↦ rw (same, (==_iff debit handle).0 same) (omega int_laws)
        | inr differs ↦ rw differs (omega int_laws)
      ])

worth-after_both :
    (s : MemoryAccounts) (debit credit handle : AcctHandle) (effect : Effect)
    → debit < length s.records
    → credit < length s.records
    → worth (record_of (after_both s debit credit effect) handle)
      ≡ worth (record_of s handle)
        -ℤ (if debit == handle then (columns effect).posted +ℤ (columns effect).pending else pos 0)
        +ℤ (if credit == handle then (columns effect).posted else pos 0)
unfolding ◌-ℤ◌ ◌+ℤ◌ record_of columns
worth-after_both s debit credit handle effect h k =
    let s' = after_debit s debit effect in
    rw
      (
        record_of-with_record s' credit handle (credited (record_of s' credit) (columns effect)) (
            omega
              (arith, length-set s.records debit (debited (record_of s debit) (columns effect)))),
        ← worth-after_debit s debit handle effect h,
      )
      (elim (Bool-cases (credit == handle)) [
        | inl same ↦ rw (same, (==_iff credit handle).0 same) (omega int_laws)
        | inr differs ↦ rw differs (omega int_laws)
      ])

moved_both :
    (s : MemoryAccounts) (debit credit : AcctHandle) (effect : Effect)
    → debit < length s.records
    → (move_columns s debit credit effect).1 ≡ ok tt
    → (move_columns s debit credit effect).0 ≡ after_both s debit credit effect
moved_both s debit credit effect h done =
    ended (move_columns s debit credit effect) (move_columns-Moved s debit credit effect h) done
  where
    ended :
        (r : MemoryAccounts × Result (Unit {0}))
        → Moved s debit credit effect r
        → r.1 ≡ ok tt
        → r.0 ≡ after_both s debit credit effect
    ended (s', ok _) m done = m.0
    ended (s', err _) m done = absurd (ground arith)

columns_cost :
    (effect : Effect)
    → pos 0 ≤ℤ effect.amount
    → IsI64 effect.amount
    → ((columns effect).posted +ℤ (columns effect).pending ≤ℤ reservation effect)
      × (pos 0 ≤ℤ (columns effect).posted)
unfolding columns reservation
columns_cost effect nonneg i = cost_le effect.kind effect.amount nonneg i

-- The balance of the two changes, for an account that is the debit side, the credit side, both or none.
funds_balance :
    (debit credit : Bool) (w l r posted pending : ℤ)
    → posted +ℤ pending ≤ℤ r
    → pos 0 ≤ℤ posted
    → w +ℤ l
      ≤ℤ (w -ℤ (if debit then posted +ℤ pending else pos 0) +ℤ (if credit then posted else pos 0))
        +ℤ (if debit then l +ℤ r else l)
funds_balance true true w l r posted pending h k = omega int_laws
funds_balance true false w l r posted pending h k = omega int_laws
funds_balance false true w l r posted pending h k = omega int_laws
funds_balance false false w l r posted pending h k = omega int_laws

own_lane :
    (lanes : LaneTable) (debit handle : AcctHandle) (r : ℤ)
    → (if debit == handle
        then (get lanes debit).speculative +ℤ r
        else (get lanes handle).speculative)
      ≡ (if debit == handle
          then (get lanes handle).speculative +ℤ r
          else (get lanes handle).speculative)
own_lane lanes debit handle r = elim (Bool-cases (debit == handle)) [
  | inl same ↦ rw (same, (==_iff debit handle).0 same) refl
  | inr differs ↦ rw differs refl
]

-- A committed effect never lowers what any account may still promise: what its columns lose, the overlay
-- gives back.
pub apply-keeps_funds :
    (s : MemoryAccounts) (lanes : LaneTable) (effect : Effect) (handle : AcctHandle)
    → effect.debit < length s.records
    → effect.credit < length s.records
    → (apply s effect).1 ≡ ok tt
    → pos 0 ≤ℤ effect.amount
    → IsI64 effect.amount
    → IsI64 ((get lanes effect.debit).speculative +ℤ reservation effect)
    → funds s lanes handle ≤ℤ funds (apply s effect).0 (release lanes effect) handle
unfolding apply funds
apply-keeps_funds s lanes effect handle h k done nonneg i j =
    rw
      (
        moved_both s effect.debit effect.credit effect h done,
        worth-after_both s effect.debit effect.credit handle effect h k,
        speculative-release lanes effect handle j,
        own_lane lanes effect.debit handle (reservation effect),
      )
      (funds_balance (effect.debit == handle) (effect.credit == handle) (worth (record_of s handle))
        (get lanes handle).speculative (reservation effect) (columns effect).posted
        (columns effect).pending (columns_cost effect nonneg i).0 (columns_cost effect nonneg i).1)

-- Nor does a roll back.
pub release-keeps_funds :
    (s : MemoryAccounts) (lanes : LaneTable) (effect : Effect) (handle : AcctHandle)
    → pos 0 ≤ℤ reservation effect
    → IsI64 ((get lanes effect.debit).speculative +ℤ reservation effect)
    → funds s lanes handle ≤ℤ funds s (release lanes effect) handle
unfolding funds
release-keeps_funds s lanes effect handle nonneg j =
    rw
      (
        speculative-release lanes effect handle j,
        own_lane lanes effect.debit handle (reservation effect),
      )
      (gains (effect.debit == handle))
  where
    gains :
        (debit : Bool)
        → worth (record_of s handle) +ℤ (get lanes handle).speculative
          ≤ℤ worth (record_of s handle)
            +ℤ (if debit
                then (get lanes handle).speculative +ℤ reservation effect
                else (get lanes handle).speculative)
    gains true = omega int_laws
    gains false = omega int_laws

pub direct_effect-direct :
    (s : MemoryAccounts) (lanes : LaneTable) (item : WorkItem) (kind : EffectKind) (effect : Effect)
    → direct_effect s lanes item kind (pos 0) ≡ ok effect
    → effect ≡ direct item kind
unfolding direct_effect
direct_effect-direct s lanes item kind effect judged = ground arith

-- What the judge lets through standing alone is covered by what a constrained account may still promise,
-- and what it takes of the overlay is the effect's whole amount.
pub direct_effect-IsCovered :
    (s : MemoryAccounts) (lanes : LaneTable) (item : WorkItem) (kind : EffectKind) (effect : Effect)
    → direct_effect s lanes item kind (pos 0) ≡ ok effect
    → is_constrained (record_of s item.debit) ≡ true
    → InRange s lanes item.debit
    → (effect ≡ direct item kind) × (item.tx.amount ≤ℤ funds s lanes item.debit)
unfolding direct_effect
direct_effect-IsCovered s lanes item kind effect judged limited v =
    ground (arith, spendable-funds s lanes item.debit v)

-- What the judge has let through of its lane, for every account.
pub reserve-funds :
    (s : MemoryAccounts) (lanes : LaneTable) (effect : Effect) (handle : AcctHandle)
    → IsI64 ((get lanes effect.debit).speculative -ℤ reservation effect)
    → funds s (reserve lanes effect) handle
      ≡ funds s lanes handle -ℤ (if effect.debit == handle then reservation effect else pos 0)
unfolding funds
reserve-funds s lanes effect handle j =
    rw (speculative-reserve lanes effect handle j) (elim (Bool-cases (effect.debit == handle)) [
      | inl same ↦ rw (same, (==_iff effect.debit handle).0 same) (omega int_laws)
      | inr differs ↦ rw differs (omega int_laws)
    ])

flags-after_both :
    (s : MemoryAccounts) (effect : Effect) (handle : AcctHandle)
    → effect.debit < length s.records
    → effect.credit < length s.records
    → (record_of (after_both s effect.debit effect.credit effect) handle).flags
      ≡ (record_of s handle).flags
unfolding record_of columns
flags-after_both s effect handle h k =
    let s' = after_debit s effect.debit effect in
    ground (
      arith,
      record_of-with_record s' effect.credit handle
          (credited (record_of s' effect.credit) (columns effect))
          (omega (
            arith,
            length-set s.records effect.debit (debited (record_of s effect.debit) (columns effect)),
          )),
      record_of-with_record s effect.debit handle
          (debited (record_of s effect.debit) (columns effect)) h,
      record_of-with_record s effect.debit effect.credit
          (debited (record_of s effect.debit) (columns effect)) h,
    )

pub flags-apply :
    (s : MemoryAccounts) (effect : Effect) (handle : AcctHandle)
    → effect.debit < length s.records
    → effect.credit < length s.records
    → is_constrained (record_of (apply s effect).0 handle) ≡ is_constrained (record_of s handle)
unfolding apply is_constrained
flags-apply s effect handle h k =
    move_columns_cases
      (λ t. is_constrained (record_of t handle) ≡ is_constrained (record_of s handle)) s
      effect.debit effect.credit effect h refl (λ _. rw (flags-after_both s effect handle h k) refl)
