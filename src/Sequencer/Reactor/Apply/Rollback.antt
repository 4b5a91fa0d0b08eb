-- ===== src/Sequencer/Reactor/Apply/Rollback.antt =====
-- What a decision takes of both overlays comes back whole when its batch is refused.
use my_ledger.Common.{◌⊎◌, ◌≡◌, refl, false, inl, inr, Bool-cases}
use my_ledger.Common.Int.{pos, IsI64, eqb_ℤ}
use my_ledger.Base.Ids.{AcctHandle, TxId}
use my_ledger.Base.Effect.{Effect, reservation}
use my_ledger.Pending.Overlay.{Hold, live, known}
use my_ledger.Pending.Overlay.Reservation.{compensate-reserve}
use my_ledger.Sequencer.State.Lane.{get}
use my_ledger.Sequencer.State.Lane.Overlay.{release-reserve}
use my_ledger.Sequencer.Reactor.{
  Reactor, take_overlays, give_back_overlays, reserve_hold, compensate_hold, overlay_of,
  is_resolution,
}

-- Both overlays as a reader sees them: every lane, and what is known of every hold.
pub record SameOverlays (r s : Reactor) : Type 0 where
  pub same_lanes : (handle : AcctHandle) → get r.lanes handle ≡ get s.lanes handle
  pub same_holds : (hold : TxId) → known (overlay_of r) hold ≡ known (overlay_of s) hold

-- What a decision asks of the overlay of holds: nothing, or that the hold it resolves is live and open.
unfoldable pub TakesOpen : Reactor → Effect → Type 0
TakesOpen r effect =
    (is_resolution effect.kind ≡ false)
    ⊎ ((h : Hold) × (known (overlay_of r) effect.pending_ref ≡ live h)
        × (h.resolved ≡ false)
        × IsI64 h.reserved)

holds_back :
    (r : Reactor) (effect : Effect) (hold : TxId)
    → TakesOpen r effect
    → IsI64 effect.amount
    → known (overlay_of (give_back_overlays (take_overlays r effect) effect)) hold
      ≡ known (overlay_of r) hold
unfolding give_back_overlays take_overlays compensate_hold reserve_hold TakesOpen
holds_back r effect hold takes k = elim takes [
  | inl direct ↦ rw direct refl
  | inr (h, e, unresolved, i) ↦ elim (Bool-cases (is_resolution effect.kind)) [
    | inr direct ↦ rw direct refl
    | inl resolves ↦ rw resolves (
        compensate-reserve (overlay_of r) effect.pending_ref hold h effect.amount
          (eqb_ℤ effect.remaining_after (pos 0)) e unresolved i k)
  ]
]

lanes_back :
    (r : Reactor) (effect : Effect) (handle : AcctHandle)
    → IsI64 (get r.lanes effect.debit).speculative
    → IsI64 (reservation effect)
    → get (give_back_overlays (take_overlays r effect) effect).lanes handle ≡ get r.lanes handle
unfolding give_back_overlays take_overlays compensate_hold reserve_hold
lanes_back r effect handle i j = elim (Bool-cases (is_resolution effect.kind)) [
  | inr direct ↦ rw direct (release-reserve r.lanes effect handle i j)
  | inl resolves ↦ rw resolves (release-reserve r.lanes effect handle i j)
]

-- A decision leaves no trace when it is given back, a direct one and one on a hold that is live and not yet
-- resolved: every lane and every hold reads as it did before the decision, the effect's own and all
-- others. The amount, what it reserves of the lane and what was taken of either before are 64-bit.
pub give_back_overlays-take_overlays :
    (r : Reactor) (effect : Effect)
    → TakesOpen r effect
    → IsI64 effect.amount
    → IsI64 (get r.lanes effect.debit).speculative
    → IsI64 (reservation effect)
    → SameOverlays (give_back_overlays (take_overlays r effect) effect) r
give_back_overlays-take_overlays r effect takes k j l = record {
  same_lanes = λ handle. lanes_back r effect handle j l;
  same_holds = λ hold. holds_back r effect hold takes k;
}
