-- ===== src/Sequencer/Reactor/Judge/Books.antt =====
-- What waits between a judgment and its commit or roll back, and what the lanes have taken for it.
use my_ledger.Common.{
  refl, List, [], ◌∷◌, All, if◌then◌else◌, Bool, false, ◌<◌, ◌≡◌, ap, arith, true, ◌==◌, length,
  ==_iff,
}
use my_ledger.Common.Int.{ℤ, pos, IsI64, ◌+ℤ◌, ◌-ℤ◌, ◌≤ℤ◌, int_laws}
use my_ledger.Base.Ids.{AcctHandle}
use my_ledger.Base.Error.{ok}
use my_ledger.Base.Effect.{Effect, EffectKind, reservation, reserved}
use my_ledger.Base.Ports.Account.{is_constrained}
use my_ledger.Account.{MemoryAccounts, record_of, apply}
use my_ledger.Sequencer.State.Lane.{LaneTable, get, reserve, release}
use my_ledger.Sequencer.State.Pipeline.{WorkItem}
use my_ledger.Sequencer.Reactor.Judge.{direct_effect}
use my_ledger.Sequencer.Reactor.Judge.Funds.{
  worth, InRange, speculative-reserve, speculative-release,
}

-- The part of the reactor that decides what may be spent, and the effects it has let through that are
-- neither committed nor rolled back.
pub record Books : Type 0 where
  pub accounts : MemoryAccounts
  pub lanes : LaneTable
  pub waiting : List Effect

-- What the waiting effects of an account will take of it.
unfoldable pub promised : List Effect → AcctHandle → ℤ
promised [] handle = pos 0
promised (effect ∷ effects) handle =
    (if effect.debit == handle then reservation effect else pos 0) +ℤ promised effects handle

-- One effect leaves, from wherever it waits.
pub data Leaves (effect : Effect) : List Effect → List Effect → Type 0 where
  first : (rest : List Effect) → Leaves effect (effect ∷ rest) rest
  later :
      (other : Effect) {before after : List Effect}
      → Leaves effect before after
      → Leaves effect (other ∷ before) (other ∷ after)

-- Handles are open, amounts are not negative, and no sum wraps. What is committed or rolled back is an
-- effect that was let through.
pub data Step : Books → Books → Type 0 where
  judges :
      (s : MemoryAccounts) (lanes : LaneTable) (waiting : List Effect) (item : WorkItem)
      (kind : EffectKind) (effect : Effect)
      → direct_effect s lanes item kind (pos 0) ≡ ok effect
      → pos 0 ≤ℤ item.tx.amount
      → InRange s lanes item.debit
      → IsI64 ((get lanes effect.debit).speculative -ℤ reservation effect)
      → Step
          (record { accounts = s; lanes = lanes; waiting = waiting })
          (record { accounts = s; lanes = reserve lanes effect; waiting = effect ∷ waiting })
  resolves :
      (s : MemoryAccounts) (lanes : LaneTable) (waiting : List Effect) (effect : Effect)
      → reservation effect ≡ pos 0
      → pos 0 ≤ℤ effect.amount
      → IsI64 ((get lanes effect.debit).speculative -ℤ reservation effect)
      → Step
          (record { accounts = s; lanes = lanes; waiting = waiting })
          (record { accounts = s; lanes = reserve lanes effect; waiting = effect ∷ waiting })
  commits :
      (s : MemoryAccounts) (lanes : LaneTable) (effect : Effect) {waiting rest : List Effect}
      → Leaves effect waiting rest
      → effect.debit < length s.records
      → effect.credit < length s.records
      → (apply s effect).1 ≡ ok tt
      → IsI64 effect.amount
      → IsI64 ((get lanes effect.debit).speculative +ℤ reservation effect)
      → Step
          (record { accounts = s; lanes = lanes; waiting = waiting })
          (record { accounts = (apply s effect).0; lanes = release lanes effect; waiting = rest })
  rolls_back :
      (s : MemoryAccounts) (lanes : LaneTable) (effect : Effect) {waiting rest : List Effect}
      → Leaves effect waiting rest
      → IsI64 ((get lanes effect.debit).speculative +ℤ reservation effect)
      → Step
          (record { accounts = s; lanes = lanes; waiting = waiting })
          (record { accounts = s; lanes = release lanes effect; waiting = rest })

pub data Reach (b : Books) : Books → Type 0 where
  here : Reach b b
  next : {c d : Books} → Reach b c → Step c d → Reach b d

-- Every lane has taken exactly what the waiting effects will take, and none of them is negative.
pub record IsBooked (b : Books) : Type 0 where
  pub taken :
      (handle : AcctHandle) → (get b.lanes handle).speculative ≡ pos 0 -ℤ promised b.waiting handle
  pub nonneg : All (λ effect. pos 0 ≤ℤ effect.amount) b.waiting

-- What a constrained account has, in its committed columns, pays for all that is waiting.
unfoldable pub IsPaid : Books → Type 0
IsPaid b =
    (handle : AcctHandle)
    → is_constrained (record_of b.accounts handle) ≡ true
    → promised b.waiting handle ≤ℤ worth (record_of b.accounts handle)

Leaves-promised :
    (effect : Effect) (handle : AcctHandle) {before after : List Effect}
    → Leaves effect before after
    → promised before handle
      ≡ (if effect.debit == handle then reservation effect else pos 0) +ℤ promised after handle
unfolding promised
Leaves-promised effect handle (first rest) = refl
Leaves-promised effect handle (later other {before} {after} l) =
    rw (Leaves-promised effect handle l) (
      swap (if other.debit == handle then reservation other else pos 0)
        (if effect.debit == handle then reservation effect else pos 0) (promised after handle))
  where
    swap : (a b c : ℤ) → a +ℤ (b +ℤ c) ≡ b +ℤ (a +ℤ c)
    swap a b c = omega int_laws

pub Leaves-All :
    (effect : Effect) {before after : List Effect}
    → Leaves effect before after
    → All (λ e. pos 0 ≤ℤ e.amount) before
    → (pos 0 ≤ℤ effect.amount) × All (λ e. pos 0 ≤ℤ e.amount) after
Leaves-All effect (first rest) all = all
Leaves-All effect (later other l) all =
    let rest = Leaves-All effect l all.1 in (rest.0, (all.0, rest.1))

reserved_le :
    (kind : EffectKind) (amount : ℤ)
    → pos 0 ≤ℤ amount
    → (reserved kind amount ≤ℤ amount) × (pos 0 ≤ℤ reserved kind amount)
unfolding reserved
reserved_le EffectKind.post amount h = (omega arith, h)
reserved_le EffectKind.hold amount h = (omega arith, h)
reserved_le EffectKind.settle amount h = (h, omega arith)
reserved_le EffectKind.void amount h = (h, omega arith)

pub reservation_le :
    (effect : Effect)
    → pos 0 ≤ℤ effect.amount
    → (reservation effect ≤ℤ effect.amount) × (pos 0 ≤ℤ reservation effect)
unfolding reservation
reservation_le effect h = reserved_le effect.kind effect.amount h

taken_more :
    (own : Bool) (lane other amount waiting : ℤ)
    → (own ≡ true → lane ≡ other)
    → other ≡ pos 0 -ℤ waiting
    → (if own then lane -ℤ amount else other)
      ≡ pos 0 -ℤ ((if own then amount else pos 0) +ℤ waiting)
taken_more true lane other amount waiting same e = rw (same refl, e) (omega int_laws)
taken_more false lane other amount waiting same e = rw e (omega int_laws)

taken_less :
    (own : Bool) (lane other amount waiting rest : ℤ)
    → (own ≡ true → lane ≡ other)
    → waiting ≡ (if own then amount else pos 0) +ℤ rest
    → other ≡ pos 0 -ℤ waiting
    → (if own then lane +ℤ amount else other) ≡ pos 0 -ℤ rest
taken_less true lane other amount waiting rest same left e =
    rw (same refl, e, left) (omega int_laws)
taken_less false lane other amount waiting rest same left e = rw (e, left) (omega int_laws)

own_lane :
    (lanes : LaneTable) (debit handle : AcctHandle)
    → (debit == handle) ≡ true
    → (get lanes debit).speculative ≡ (get lanes handle).speculative
own_lane lanes debit handle same =
    ap (λ at. (get lanes at).speculative) ((==_iff debit handle).0 same)

pub reserved_taken :
    (lanes : LaneTable) (waiting : List Effect) (effect : Effect) (handle : AcctHandle)
    → IsI64 ((get lanes effect.debit).speculative -ℤ reservation effect)
    → (get lanes handle).speculative ≡ pos 0 -ℤ promised waiting handle
    → (get (reserve lanes effect) handle).speculative ≡ pos 0 -ℤ promised (effect ∷ waiting) handle
unfolding promised
reserved_taken lanes waiting effect handle j e = rw (speculative-reserve lanes effect handle j) (
    taken_more (effect.debit == handle) (get lanes effect.debit).speculative
      (get lanes handle).speculative (reservation effect) (promised waiting handle)
      (own_lane lanes effect.debit handle) e)

pub released_taken :
    (lanes : LaneTable) (effect : Effect) (handle : AcctHandle) {waiting rest : List Effect}
    → Leaves effect waiting rest
    → IsI64 ((get lanes effect.debit).speculative +ℤ reservation effect)
    → (get lanes handle).speculative ≡ pos 0 -ℤ promised waiting handle
    → (get (release lanes effect) handle).speculative ≡ pos 0 -ℤ promised rest handle
released_taken lanes effect handle {waiting} {rest} l j e =
    rw (speculative-release lanes effect handle j) (
      taken_less (effect.debit == handle) (get lanes effect.debit).speculative
        (get lanes handle).speculative (reservation effect) (promised waiting handle)
        (promised rest handle) (own_lane lanes effect.debit handle)
        (Leaves-promised effect handle l) e)
