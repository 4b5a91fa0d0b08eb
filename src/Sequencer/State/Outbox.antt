-- ===== src/Sequencer/State/Outbox.antt =====
-- sequencer/src/state/outbox.rs: the acks the client has not taken yet, behind a bounded queue.
pub mod Order
use my_ledger.Common.{
  ℕ, max, Bool, true, false, List, [], ◌∷◌, leb, length, push_back, if◌then◌else◌,
}
use my_ledger.Common.Queue.{Queue, push}
use my_ledger.Base.Protocol.{Ack}

pub record Outbox : Type 0 where
  pub acks : Queue Ack
  pub backlog : List Ack
  pub limit : ℕ
  pub peak : ℕ

abbrev pub new_outbox : Queue Ack → ℕ → Outbox
new_outbox acks limit = record { acks = acks; backlog = []; limit = limit; peak = 0 }

pub hold_back : Outbox → Ack → Outbox
hold_back o ack =
    let backlog = push_back o.backlog ack in
    record o { backlog = backlog; peak = max o.peak (length backlog) }

abbrev emit_after : Outbox → List Ack → Ack → Outbox
emit_after o [] ack =
    let pushed = push o.acks ack in
    if pushed.1 then record o { acks = pushed.0 } else hold_back o ack
emit_after o (_ ∷ _) ack = hold_back o ack

-- Nothing overtakes a backlogged ack.
unfoldable pub emit : Outbox → Ack → Outbox
emit o ack = emit_after o o.backlog ack

pub flush_acks : Outbox → List Ack → Bool → Outbox × Bool
flush_acks o [] progress = (record o { backlog = [] }, progress)
flush_acks o (ack ∷ rest) progress =
    let pushed = push o.acks ack in
    let after = flush_acks (record o { acks = pushed.0 }) rest true in
    if pushed.1 then after else (record o { backlog = ack ∷ rest }, progress)

unfoldable pub flush : Outbox → Outbox × Bool
unfolding flush_acks
flush o = flush_acks o o.backlog false

unfoldable pub is_saturated : Outbox → Bool
is_saturated o = leb o.limit (length o.backlog)
