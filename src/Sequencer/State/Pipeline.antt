-- ===== src/Sequencer/State/Pipeline.antt =====
-- sequencer/src/state/pipeline.rs: the requests in flight, the slots they live in, and what each one is
-- still waiting for. `DepFlags`, a byte of three bits, is a record of three tests.
pub mod Slots
use my_ledger.Common.{
  ℕ, zero, suc, ◌+◌, ◌-◌, ◌%◌, ◌^◌, max, Bool, true, false, not, ◌&&◌, ◌||◌, Option, none, some,
  List, [], ◌∷◌, ◌==◌, if◌then◌else◌, length, get_or, set, replicate, push_back, is_some,
}
use my_ledger.Common.Int.{pos}
use my_ledger.Base.Ids.{AccountId, AcctHandle, LinkedChainId, Seq, unordered, absent}
use my_ledger.Base.Transfer.{Transfer, TransferKind, single_phase, needs_pending_lookup}
use my_ledger.Base.Protocol.{Request}
use my_ledger.Base.Ports.Idempotency.{IdemVerdict}
use my_ledger.Base.Ports.Pending.{HoldData}
use my_ledger.Sequencer.State.Batcher.{SlotId}

pub record DepFlags : Type 0 where
  pub idem : Bool
  pub pending : Bool
  pub linked_chain : Bool

abbrev pub no_deps : DepFlags
no_deps = record { idem = false; pending = false; linked_chain = false }

-- The constants `IDEM`, `PENDING` and `LINKED_CHAIN`.
pub data Dep : Type 0 where
  idem_dep pending_dep linked_dep : Dep

abbrev pub has_dep : DepFlags → Dep → Bool
has_dep d idem_dep = d.idem
has_dep d pending_dep = d.pending
has_dep d linked_dep = d.linked_chain

abbrev set_dep : DepFlags → Dep → Bool → DepFlags
set_dep d idem_dep b = record d { idem = b }
set_dep d pending_dep b = record d { pending = b }
set_dep d linked_dep b = record d { linked_chain = b }

abbrev pub with_dep : DepFlags → Dep → DepFlags
with_dep d dep = set_dep d dep true

abbrev pub without_dep : DepFlags → Dep → DepFlags
without_dep d dep = set_dep d dep false

abbrev pub is_clear : DepFlags → Bool
is_clear d = not (d.idem || d.pending || d.linked_chain)

pub record WorkItem : Type 0 where
  pub tx : Transfer
  pub digest : ℕ
  pub seq : Seq
  pub lane : AccountId
  pub kind : TransferKind
  pub debit : AcctHandle
  pub credit : AcctHandle
  pub chain : LinkedChainId
  pub deps : DepFlags
  pub sent : DepFlags
  pub verdict : Option IdemVerdict
  pub submitted_at_nanos : ℕ

-- `Transfer::default` and `WorkItem::default`.
abbrev pub no_transfer : Transfer
no_transfer = record {
  id = absent;
  pending_ref = absent;
  debit_account = absent;
  credit_account = absent;
  amount = pos 0;
  ledger = 0;
  flags = 0;
}

abbrev pub no_item : WorkItem
no_item = record {
  tx = no_transfer;
  digest = 0;
  seq = unordered;
  lane = absent;
  kind = single_phase;
  debit = 0;
  credit = 0;
  chain = absent;
  deps = no_deps;
  sent = no_deps;
  verdict = none;
  submitted_at_nanos = 0;
}

unfoldable pub holds_pin : WorkItem → Bool
holds_pin item = needs_pending_lookup item.kind && item.sent.pending

abbrev pub clear_dep : WorkItem → Dep → WorkItem
clear_dep item dep = record item { deps = without_dep item.deps dep }

abbrev pub is_judgeable : WorkItem → Bool
is_judgeable item = is_clear item.deps

abbrev pub keeps_lane_place : WorkItem → Bool
keeps_lane_place item = not (item.seq == unordered)

pub record Answer : Type 0 where
  pub found : Option HoldData
  pub expects_applies : ℕ

abbrev pub no_answer : Answer
no_answer = record { found = none; expects_applies = 0 }

-- The free list is a stack: its head is the slot handed out next.
pub record SlotPool : Type 0 where
  pub items : List WorkItem
  pub answers : List Answer
  pub free : List SlotId
  pub peak : ℕ

abbrev pub slots_from : SlotId → ℕ → List SlotId
slots_from slot zero = []
slots_from slot (suc n) = slot ∷ slots_from (suc slot) n

-- The free list counts to `capacity as SlotId`.
abbrev pub with_capacity : ℕ → SlotPool
with_capacity n = record {
  items = replicate n no_item;
  answers = replicate n no_answer;
  free = slots_from 0 (n % 2 ^ 32);
  peak = 0;
}

unfoldable pub in_flight : SlotPool → ℕ
in_flight p = length p.items - length p.free

unfoldable pub hand_out : SlotPool → List SlotId → SlotPool × Option SlotId
unfolding in_flight
hand_out p [] = (p, none)
hand_out p (slot ∷ rest) =
    let taken = record p { free = rest } in
    (record taken { peak = max p.peak (in_flight taken) }, some slot)

unfoldable pub alloc : SlotPool → SlotPool × Option SlotId
unfolding hand_out
alloc p = hand_out p p.free

unfoldable pub release : SlotPool → SlotId → SlotPool
release p slot = record p { answers = set p.answers slot no_answer; free = slot ∷ p.free }

unfoldable pub answer_at : SlotPool → SlotId → Answer
answer_at p slot = get_or p.answers slot no_answer

-- `SlotPool::record`.
abbrev pub record_at : SlotPool → SlotId → Option HoldData
record_at p slot = (answer_at p slot).found

unfoldable pub set_record : SlotPool → SlotId → Option HoldData → SlotPool
unfolding answer_at
set_record p slot found = record p {
  answers = set p.answers slot (record (answer_at p slot) { found = found });
}

unfoldable pub expect_applies : SlotPool → SlotId → ℕ → SlotPool
unfolding answer_at
expect_applies p slot applies_sent = record p {
  answers = set p.answers slot (record (answer_at p slot) { expects_applies = applies_sent });
}

unfoldable pub item_at : SlotPool → SlotId → WorkItem
item_at p slot = get_or p.items slot no_item

-- What is written through `get_mut`.
unfoldable pub set_item : SlotPool → SlotId → WorkItem → SlotPool
set_item p slot item = record p { items = set p.items slot item }

pub record Pipeline : Type 0 where
  pub requests : List Request
  pub slots : SlotPool
  pub deferred : List SlotId
  pub deferred_peak : ℕ

abbrev next_of : Pipeline → List Request → Pipeline × Option Request
next_of p [] = (p, none)
next_of p (request ∷ rest) = (record p { requests = rest }, some request)

unfoldable pub next_request : Pipeline → Pipeline × Option Request
next_request p = next_of p p.requests

unfoldable pub defer : Pipeline → SlotId → Pipeline
defer p slot =
    let deferred = push_back p.deferred slot in
    record p { deferred = deferred; deferred_peak = max p.deferred_peak (length deferred) }

abbrev first {ℓ} : {A : Type ℓ} → List A → Option A
first [] = none
first (x ∷ _) = some x

unfoldable pub deferred_front : Pipeline → Option SlotId
deferred_front p = first p.deferred

abbrev rest_of {ℓ} : {A : Type ℓ} → List A → List A
rest_of [] = []
rest_of (_ ∷ xs) = xs

unfoldable pub deferred_done : Pipeline → Pipeline
deferred_done p = record p { deferred = rest_of p.deferred }

unfoldable pub has_deferred : Pipeline → Bool
has_deferred p = is_some (deferred_front p)
