-- ===== src/Sequencer/Reactor/Judge/Resolution.antt =====
-- A settle or a void takes no more than its hold has to spare, of the hold it names.
use my_ledger.Common.{◌<◌, ◌≡◌, refl, ◌∙◌, arith, false, inl, inr, Bool-cases, ==_iff, some}
use my_ledger.Common.Int.{
  ℤ, pos, IsI64, ◌+ℤ◌, ◌-ℤ◌, ◌≤ℤ◌, ◌<ℤ◌, int_laws, int_ranges, sub_i64, sub_i64-eq, add_i64,
  add_i64-eq, leb_ℤ, eqb_ℤ, min_ℤ,
}
use my_ledger.Base.Ids.{Amount, TxId, is_absent}
use my_ledger.Base.Error.{ok}
use my_ledger.Base.Effect.{Effect, EffectKind}
use my_ledger.Base.Ports.Pending.{HoldData, HoldView, compose}
use my_ledger.Account.{MemoryAccounts, resolve}
use my_ledger.Pending.Overlay.{HoldOverlay, Hold, live, known, overlay, reserve, taking}
use my_ledger.Pending.Overlay.Reservation.{known-change, spare}
use my_ledger.Sequencer.Rules.Budget.{allow_resolution}
use my_ledger.Sequencer.State.Pipeline.{WorkItem}
use my_ledger.Sequencer.Reactor.Judge.{resolve_hold, amount_of}

-- What an effect that resolves a hold is.
pub record IsResolution (accounts : MemoryAccounts) (item : WorkItem) (kind : EffectKind)
    (hold : HoldView) (effect : Effect) : Type 0 where
  pub still_open : hold.resolved ≡ false
  pub same_id : effect.tx_id ≡ item.tx.id
  pub same_kind : effect.kind ≡ kind
  pub same_chain : effect.chain ≡ item.chain
  pub same_budget : effect.budget ≡ hold.budget
  pub budget_whole : is_absent hold.budget ≡ false → effect.amount ≡ hold.remaining
  pub budget_shared :
      is_absent hold.budget ≡ false → 1 < hold.budget_members → is_absent item.chain ≡ false
  pub same_debit : effect.debit_account ≡ item.tx.debit_account
  pub same_credit : effect.credit_account ≡ item.tx.credit_account
  pub hold_debit : hold.debit_account ≡ item.tx.debit_account
  pub hold_credit : hold.credit_account ≡ item.tx.credit_account
  pub hold_ledger : hold.ledger ≡ item.tx.ledger
  pub same_ledger : effect.ledger ≡ item.tx.ledger
  pub names_hold : effect.pending_ref ≡ item.tx.pending_ref
  pub takes : effect.amount ≡ amount_of kind hold item.tx.amount
  pub takes_something : pos 0 <ℤ effect.amount
  pub within : effect.amount ≤ℤ hold.remaining
  pub leaves : effect.remaining_after ≡ sub_i64 hold.remaining effect.amount
  pub debit_resolves : resolve accounts effect.debit_account ≡ some effect.debit
  pub credit_resolves : resolve accounts effect.credit_account ≡ some effect.credit

-- A resolution that is let through carries its request's id and chain and its hold's budget, names the
-- hold it resolves, which is not resolved yet, moves between the accounts and in the ledger that hold and
-- request agree on, and takes the amount asked, a void all that is left: more than nothing and at most
-- what the hold has left. From a hold with a budget it takes all that is left, and when the budget has
-- other members the request stands in a chain.
pub resolve_hold-IsResolution :
    (accounts : MemoryAccounts) (item : WorkItem) (kind : EffectKind) (hold : HoldView)
    (effect : Effect)
    → resolve_hold accounts item kind hold ≡ ok effect
    → IsResolution accounts item kind hold effect
unfolding resolve_hold allow_resolution
resolve_hold-IsResolution accounts item kind hold effect h = ground arith

-- The figures of a live hold as its owner keeps them: nothing is negative.
pub record IsHold (h : Hold) (found : HoldData) : Type 0 where
  pub committed_nonneg : pos 0 ≤ℤ h.committed_remaining
  pub committed_fits : IsI64 h.committed_remaining
  pub reserved_nonneg : pos 0 ≤ℤ h.reserved
  pub reserved_within : h.reserved ≤ℤ h.committed_remaining
  pub found_nonneg : pos 0 ≤ℤ found.remaining
  pub found_fits : IsI64 found.remaining

le_of_test : (a b : ℤ) → leb_ℤ a b ≡ false → b ≤ℤ a
le_of_test a b h = ground arith

le_trans : (a b c : ℤ) → a ≤ℤ b → b ≤ℤ c → a ≤ℤ c
le_trans a b c h k = omega int_laws

view_remaining :
    (committed found reserved : ℤ)
    → pos 0 ≤ℤ committed
    → IsI64 committed
    → pos 0 ≤ℤ reserved
    → reserved ≤ℤ committed
    → pos 0 ≤ℤ found
    → IsI64 found
    → sub_i64 (min_ℤ committed found) reserved ≤ℤ committed -ℤ reserved
view_remaining committed found reserved a b c d e f = elim (Bool-cases (leb_ℤ committed found)) [
  | inl le ↦ rw (le, sub_i64-eq committed reserved (omega int_ranges)) (omega int_laws)
  | inr gt ↦
      let le = le_of_test committed found gt in
      rw (gt, sub_i64-eq found reserved (omega int_ranges)) (omega int_laws)
]

overlay-live :
    (o : HoldOverlay) (hold : TxId) (h : Hold)
    → known o hold ≡ live h
    → overlay o hold ≡ (record {
      remaining = some h.committed_remaining;
      taken = h.reserved;
      resolved = h.resolved;
    })
unfolding overlay
overlay-live o hold h e = rw e refl

within_spare :
    (o : HoldOverlay) (hold : TxId) (h : Hold) (found : HoldData)
    → known o hold ≡ live h
    → IsHold h found
    → (compose found (overlay o hold)).remaining ≤ℤ spare h
unfolding compose
within_spare o hold h found e v = rw (overlay-live o hold h e) (
    view_remaining h.committed_remaining found.remaining h.reserved v.committed_nonneg
      v.committed_fits v.reserved_nonneg v.reserved_within v.found_nonneg v.found_fits)

taken :
    (h : Hold) (amount : Amount)
    → IsI64 h.committed_remaining
    → pos 0 ≤ℤ h.reserved
    → pos 0 <ℤ amount
    → amount ≤ℤ spare h
    → (add_i64 h.reserved amount ≡ h.reserved +ℤ amount)
      × (pos 0 ≤ℤ h.committed_remaining -ℤ (h.reserved +ℤ amount))
taken h amount i nonneg some_amount le =
    (add_i64-eq h.reserved amount (omega int_ranges), omega int_laws)

-- Judged by the record its engine answered and by what has been decided since, a resolution takes no
-- more than the hold has to spare by the overlay, and once it is reserved the hold is not taken beyond
-- that: for a live hold whose figures, and the record's remainder, are in range and not negative and of
-- which no more is reserved than is left.
pub resolve_hold-keeps_spare :
    (accounts : MemoryAccounts) (item : WorkItem) (kind : EffectKind) (o : HoldOverlay) (h : Hold)
    (found : HoldData) (effect : Effect)
    → known o item.tx.pending_ref ≡ live h
    → IsHold h found
    → resolve_hold accounts item kind (compose found (overlay o item.tx.pending_ref)) ≡ ok effect
    → let o' = reserve o effect.pending_ref effect.amount (eqb_ℤ effect.remaining_after (pos 0)) in
      (effect.amount ≤ℤ spare h)
      × (h' : Hold) × (known o' item.tx.pending_ref ≡ live h')
      × (h'.reserved ≡ h.reserved +ℤ effect.amount)
      × (pos 0 ≤ℤ spare h')
unfolding reserve
resolve_hold-keeps_spare accounts item kind o h found effect e v judged =
    let view = compose found (overlay o item.tx.pending_ref) in
    let is = resolve_hold-IsResolution accounts item kind view effect judged in
    let within = within_spare o item.tx.pending_ref h found e v in
    let le = le_trans effect.amount view.remaining (spare h) is.within within in
    let sums = taken h effect.amount v.committed_fits v.reserved_nonneg is.takes_something le in
    let resolves = eqb_ℤ effect.remaining_after (pos 0) in
    (
      le,
      taking effect.amount resolves h,
      rw is.names_hold (
          known-change o item.tx.pending_ref item.tx.pending_ref (taking effect.amount resolves)
          ∙ rw ((==_iff item.tx.pending_ref item.tx.pending_ref).1 refl, e) refl),
      sums.0,
      rw sums.0 sums.1,
    )
