-- ===== src/Examples/Data.antt =====
-- The accounts, transfers and effects of the examples.
use my_ledger.Common.{ℕ, [], ◌∷◌, none, false, true}
use my_ledger.Common.Int.{pos}
use my_ledger.Base.Effect.{Effect, EffectKind}
use my_ledger.Base.Transfer.{Transfer, TransferKind}
use my_ledger.Base.Ports.Account.{AccountRecord}
use my_ledger.Base.Ports.Pending.{HoldData}
use my_ledger.Account.{MemoryAccounts}
use my_ledger.Pending.Overlay.{HoldOverlay, Hold, decided, new_overlay}
use my_ledger.Pending.Port.{MemoryPending}
use my_ledger.Sequencer.Config.{default_config}
use my_ledger.Sequencer.Rules.Linked.{LinkedChain, new_chains}
use my_ledger.Sequencer.State.Batcher.{BatchPolicy, new_batcher}
use my_ledger.Sequencer.State.Cascade.{new_cascade}
use my_ledger.Sequencer.State.Channel.{new_channel}
use my_ledger.Sequencer.State.Expiry.{new_expiry}
use my_ledger.Sequencer.State.Lane.{LaneTable, idle_lane}
use my_ledger.Sequencer.State.Outbox.{new_outbox}
use my_ledger.Sequencer.State.Pipeline.{WorkItem, no_item, with_capacity}
use my_ledger.Sequencer.State.Safety.{new_safety}
use my_ledger.Sequencer.Reactor.{Reactor}

-- Account 7 has 100 and is constrained; account 9 has paid them.
abbrev pub payer : AccountRecord
payer = record {
  debits_posted = pos 0;
  credits_posted = pos 100;
  debits_pending = pos 0;
  credits_pending = pos 0;
  ledger = 1;
  flags = 1;
}

abbrev pub payee : AccountRecord
payee = record {
  debits_posted = pos 100;
  credits_posted = pos 0;
  debits_pending = pos 0;
  credits_pending = pos 0;
  ledger = 1;
  flags = 0;
}

abbrev pub two_accounts : MemoryAccounts
two_accounts = record {
  records = payer ∷ payee ∷ [];
  ids = 7 ∷ 9 ∷ [];
  index = (7, 0) ∷ (9, 1) ∷ [];
  applied = 0;
}

abbrev pub payment : Effect
payment = record {
  tx_id = 1;
  pending_ref = 0;
  debit_account = 7;
  credit_account = 9;
  amount = pos 30;
  remaining_after = pos 0;
  debit = 0;
  credit = 1;
  chain = 0;
  budget = 0;
  ledger = 1;
  kind = EffectKind.post;
}

-- A settle of 10 out of a hold of 50.
abbrev pub partial_settle : Effect
partial_settle = record payment {
  pending_ref = 5;
  amount = pos 10;
  remaining_after = pos 40;
  kind = EffectKind.settle;
}

abbrev pub pay_transfer : Transfer
pay_transfer = record {
  id = 1;
  pending_ref = 0;
  debit_account = 7;
  credit_account = 9;
  amount = pos 30;
  ledger = 1;
  flags = 0;
}

abbrev pub pay_item : WorkItem
pay_item = record no_item {
  tx = pay_transfer;
  lane = 7;
  seq = 1;
  debit = 0;
  credit = 1;
  kind = TransferKind.single_phase;
}

abbrev pub settle_item : WorkItem
settle_item = record pay_item {
  tx = record pay_transfer { pending_ref = 5; amount = pos 10; flags = 2 };
  kind = TransferKind.settle;
}

abbrev pub open_hold : Hold
open_hold = record { pinned = 0; committed_remaining = pos 50; reserved = pos 20; resolved = false }

abbrev pub hold_overlay : HoldOverlay
hold_overlay = record (new_overlay 8 2) { entries = (5, decided open_hold) ∷ [] }

abbrev pub hold_record : HoldData
hold_record = record {
  debit_account = 7;
  credit_account = 9;
  amount = pos 50;
  remaining = pos 50;
  ledger = 1;
  budget = 0;
  budget_members = 0;
  budget_remaining = pos 0;
}

-- An engine whose queue takes `room` more commands.
abbrev pub port_with : ℕ → MemoryPending
port_with room = record {
  commands = record { taken = []; room = room };
  overlay = hold_overlay;
  applies_sent = 0;
}

abbrev pub two_lanes : LaneTable
two_lanes = idle_lane ∷ idle_lane ∷ []

abbrev pub small_policy : BatchPolicy
small_policy = record { size = 2; max_batch = 2; queued = 4; linger = 100; in_flight_limit = 2 }

abbrev pub reactor : Reactor
reactor = record {
  config = default_config;
  accounts = two_accounts;
  lanes = two_lanes;
  linked = new_chains 2;
  pipeline = record { requests = []; slots = with_capacity 4; deferred = []; deferred_peak = 0 };
  batcher = new_batcher small_policy;
  outbox = new_outbox (record { taken = []; room = 1 }) 4;
  expiry = new_expiry 4;
  cascade = new_cascade;
  pending = new_channel (port_with 1) 4;
  idem = record { taken = []; room = 4 };
  raft = record { taken = []; room = 1 };
  safety = new_safety 3;
  applied_through = 0;
  intake_closed = false;
  metrics = record { judged = 0; committed_count = 0; order_exempt = 0; slot_exhaustion = 0 };
}

-- Two requests that belong to one chain.
abbrev pub pair : LinkedChain
pair = record {
  id = 1;
  legs = 0 ∷ 1 ∷ [];
  gated = 2 ∷ [];
  outstanding = 2;
  closed = true;
  failure = none;
}
