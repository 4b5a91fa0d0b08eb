-- ===== src/Sequencer/State/Channel.antt =====
-- sequencer/src/state/pending.rs, `PendingChannel`: the pending port, and the committed decisions that
-- have not been handed over yet. The methods that only forward to the port's overlay are the overlay's.
pub mod Order
pub mod Gap
use my_ledger.Common.{
  ℕ, max, Bool, true, false, not, ◌||◌, List, [], ◌∷◌, leb, length, push_back, if◌then◌else◌,
  inc_word,
}
use my_ledger.Base.Ids.{TxId}
use my_ledger.Base.Ports.Pending.{
  PendingEffect, PendingLookup, PendingFence, lookup_command, fence_command, apply_command,
  expiry_declined,
}
use my_ledger.Pending.Overlay.{HoldOverlay}
use my_ledger.Pending.Port.{MemoryPending, send}

-- A decision and the log position of its batch.
abbrev pub Write : Type 0
Write = PendingEffect × ℕ

pub record PendingChannel : Type 0 where
  pub port : MemoryPending
  pub writes : List Write
  pub limit : ℕ
  pub peak : ℕ
  pub applies_sent : ℕ
  pub declines : List TxId

abbrev pub new_channel : MemoryPending → ℕ → PendingChannel
new_channel port limit = record {
  port = port;
  writes = [];
  limit = limit;
  peak = 0;
  applies_sent = 0;
  declines = [];
}

-- What is done to the overlay behind the port, on the reactor's own thread.
abbrev pub on_overlay : PendingChannel → (HoldOverlay → HoldOverlay) → PendingChannel
on_overlay ch f = record ch { port = record ch.port { overlay = f ch.port.overlay } }

abbrev keep_decline : PendingChannel → TxId → PendingChannel
keep_decline ch hold = record ch { declines = push_back ch.declines hold }

abbrev decline_after : PendingChannel → List TxId → TxId → PendingChannel
decline_after ch [] hold =
    let sent = send ch.port (expiry_declined hold) in
    if sent.1 then record ch { port = sent.0 } else keep_decline ch hold
decline_after ch (_ ∷ _) hold = keep_decline ch hold

unfoldable pub decline_expiry : PendingChannel → TxId → PendingChannel
decline_expiry ch hold = decline_after ch ch.declines hold

pub offer_declines : PendingChannel → List TxId → Bool → PendingChannel × Bool
offer_declines ch [] progress = (record ch { declines = [] }, progress)
offer_declines ch (hold ∷ rest) progress =
    let sent = send ch.port (expiry_declined hold) in
    let after = offer_declines (record ch { port = sent.0 }) rest true in
    if sent.1 then after else (record ch { declines = hold ∷ rest }, progress)

unfoldable pub drain_declines : PendingChannel → PendingChannel × Bool
unfolding offer_declines
drain_declines ch = offer_declines ch ch.declines false

unfoldable pub lookup : PendingChannel → PendingLookup → PendingChannel × Bool
lookup ch ask =
    let sent = send ch.port (lookup_command ask) in (record ch { port = sent.0 }, sent.1)

unfoldable pub fence : PendingChannel → PendingFence → PendingChannel × Bool
fence ch ask = let sent = send ch.port (fence_command ask) in (record ch { port = sent.0 }, sent.1)

pub keep_write : PendingChannel → Write → PendingChannel
keep_write ch write =
    let writes = push_back ch.writes write in
    record ch { writes = writes; peak = max ch.peak (length writes) }

abbrev pub sent_write : PendingChannel → MemoryPending → PendingChannel
sent_write ch port = record ch { port = port; applies_sent = inc_word 64 ch.applies_sent }

abbrev pub write_after : PendingChannel → List Write → Write → PendingChannel
write_after ch [] write =
    let sent = send ch.port (apply_command write.0 write.1) in
    if sent.1 then sent_write ch sent.0 else keep_write ch write
write_after ch (_ ∷ _) write = keep_write ch write

-- A decision goes straight to the engine only where none is queued before it.
unfoldable pub write : PendingChannel → PendingEffect → ℕ → PendingChannel
write ch effect at = write_after ch ch.writes (effect, at)

pub flush_writes : PendingChannel → List Write → Bool → PendingChannel × Bool
flush_writes ch [] progress = (record ch { writes = [] }, progress)
flush_writes ch (w ∷ rest) progress =
    let sent = send ch.port (apply_command w.0 w.1) in
    let after = flush_writes (sent_write ch sent.0) rest true in
    if sent.1 then after else (record ch { writes = w ∷ rest }, progress)

unfoldable pub flush : PendingChannel → PendingChannel × Bool
unfolding flush_writes
flush ch =
    let written = flush_writes ch ch.writes false in
    let declined = drain_declines written.0 in (declined.0, written.1 || declined.1)

abbrev pub is_empty : List Write → Bool
is_empty [] = true
is_empty (_ ∷ _) = false

-- While a write is queued no lookup may be sent.
unfoldable pub blocks_lookups : PendingChannel → Bool
blocks_lookups ch = not (is_empty ch.writes)

unfoldable pub is_saturated : PendingChannel → Bool
is_saturated ch = leb ch.limit (length ch.writes)
