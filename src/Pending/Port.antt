-- ===== src/Pending/Port.antt =====
-- pending/src/memory.rs, the sequencer's end of `MemoryPending`: what `PendingPort::send` does on the
-- reactor's own thread. The worker at the other end of the queue is not modelled.
use my_ledger.Common.{ℕ, Bool, true, false, if◌then◌else◌, inc_word}
use my_ledger.Common.Queue.{Queue, push}
use my_ledger.Base.Ports.Pending.{
  PendingCommand, PendingEffect, create, reduce, remove, apply_command,
}
use my_ledger.Pending.Overlay.{HoldOverlay, created, note_remaining, forget}

pub record MemoryPending : Type 0 where
  pub commands : Queue PendingCommand
  pub overlay : HoldOverlay
  pub applies_sent : ℕ

-- What the overlay makes of a decision the engine has been sent.
unfoldable pub follow : HoldOverlay → ℕ → PendingEffect → HoldOverlay
follow overlay sent (create c) = created overlay c.tx_id c.amount
follow overlay sent (reduce r) = note_remaining overlay r.pending_ref r.remaining
follow overlay sent (remove r) = forget overlay r.pending_ref sent

unfoldable pub after_send : MemoryPending → PendingCommand → MemoryPending
after_send p (apply_command effect at) =
    let sent = inc_word 64 p.applies_sent in
    record p { applies_sent = sent; overlay = follow p.overlay sent effect }
after_send p command = p

-- `PendingPort::send`: false when the queue is full, and nothing has changed.
unfoldable pub send : MemoryPending → PendingCommand → MemoryPending × Bool
send p command =
    let pushed = push p.commands command in
    if pushed.1 then (after_send (record p { commands = pushed.0 }) command, true) else (p, false)
