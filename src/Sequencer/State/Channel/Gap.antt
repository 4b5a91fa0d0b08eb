-- ===== src/Sequencer/State/Channel/Gap.antt =====
-- What the overlay says of a hold while the decision about it waits for the engine's queue.
use my_ledger.Common.{ℕ, zero, ◌≡◌, refl, arith, List, [], ◌∷◌, true, false, push_back}
use my_ledger.Common.Int.{
  ℤ, pos, IsI64, ◌+ℤ◌, ◌≤ℤ◌, int_laws, int_ranges, sub_i64-eq, sub_i64, -ℤ_parts, ◌-ℤ◌, max_ℤ,
}
use my_ledger.Common.Queue.{push_refused}
use my_ledger.Base.Ids.{Amount}
use my_ledger.Base.Ports.Pending.{Reduce, reduce, apply_command, PendingCommand}
use my_ledger.Pending.Overlay.{Hold, live, known, releasing, release_reservation}
use my_ledger.Pending.Overlay.Reservation.{known-change, spare}
use my_ledger.Pending.Port.{MemoryPending, send}
use my_ledger.Sequencer.State.Channel.{
  PendingChannel, Write, write, write_after, keep_write, on_overlay, blocks_lookups, is_empty,
}

send_refused :
    (p : MemoryPending) (c : PendingCommand) → p.commands.room ≡ zero → send p c ≡ (p, false)
unfolding send
send_refused p c full = rw (push_refused p.commands c full) refl

write_after_refused :
    (ch : PendingChannel) (writes : List Write) (w : Write)
    → ch.port.commands.room ≡ zero
    → write_after ch writes w ≡ keep_write ch w
write_after_refused ch [] w full = rw (send_refused ch.port (apply_command w.0 w.1) full) refl
write_after_refused ch (_ ∷ _) w full = refl

nonempty : (ws : List Write) (w : Write) → is_empty (push_back ws w) ≡ false
nonempty [] w = refl
nonempty (_ ∷ _) w = refl

blocked : (ch : PendingChannel) (w : Write) → blocks_lookups (keep_write ch w) ≡ true
unfolding blocks_lookups keep_write
blocked ch w = rw (nonempty ch.writes w) refl

released :
    (reserved amount : ℤ)
    → pos 0 ≤ℤ amount
    → amount ≤ℤ reserved
    → IsI64 reserved
    → max_ℤ (sub_i64 reserved amount) (pos 0) ≡ reserved -ℤ amount
released reserved amount nonneg within i =
    ground (arith, sub_i64-eq reserved amount (omega int_ranges), -ℤ_parts reserved amount)

releasing-spare :
    (h : Hold) (amount : Amount)
    → pos 0 ≤ℤ amount
    → amount ≤ℤ h.reserved
    → IsI64 h.reserved
    → spare (releasing amount h) ≡ spare h +ℤ amount
releasing-spare h amount nonneg within i =
    rw (released h.reserved amount nonneg within i) (omega int_laws)

-- A partial settle commits while the engine's queue is full: its reservation is gone and the smaller
-- remainder is not noted, so until the write is flushed the hold seems to have the settled amount to
-- spare a second time. Meanwhile the channel says that lookups are blocked.
pub write_gap :
    (ch : PendingChannel) (r : Reduce) (at : ℕ) (h : Hold) (amount : Amount)
    → ch.port.commands.room ≡ zero
    → known ch.port.overlay r.pending_ref ≡ live h
    → pos 0 ≤ℤ amount
    → amount ≤ℤ h.reserved
    → IsI64 h.reserved
    → let ch' =
        write (on_overlay ch (λ o. release_reservation o r.pending_ref amount)) (reduce r) at in
      (known ch'.port.overlay r.pending_ref ≡ live (releasing amount h))
      × (spare (releasing amount h) ≡ spare h +ℤ amount)
      × (blocks_lookups ch' ≡ true)
unfolding write release_reservation keep_write
write_gap ch r at h amount full e nonneg within i =
    let freed = on_overlay ch (λ o. release_reservation o r.pending_ref amount) in
    rw (write_after_refused freed freed.writes (reduce r, at) full) (
      ground (arith, known-change ch.port.overlay r.pending_ref r.pending_ref (releasing amount)),
      releasing-spare h amount nonneg within i,
      blocked freed (reduce r, at),
    )
