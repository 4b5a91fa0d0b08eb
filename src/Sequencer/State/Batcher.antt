-- ===== src/Sequencer/State/Batcher.antt =====
-- sequencer/src/state/batcher.rs: judged effects on their way to consensus. The spare buffers and the
-- peaks, which only spare allocations and report sizes, are left out.
pub mod Boundary
pub mod Order
use my_ledger.Common.{
  ℕ, zero, suc, ◌+◌, ◌-◌, ◌^◌, min, Bool, true, false, not, ◌&&◌, ◌||◌, Option, none, some, List,
  [], ◌∷◌, ◌++◌, ltb, leb, ◌==◌, if◌then◌else◌, inc_word, length, take, drop, get_elem?, push_back,
}
use my_ledger.Base.Ids.{LinkedChainId, is_absent, absent}
use my_ledger.Base.Effect.{Effect}
use my_ledger.Base.Ports.Raft.{RaftProposal}

abbrev pub SlotId : Type 0
SlotId = ℕ

-- `BatchPolicy` of sequencer/src/config.rs; `linger` in nanoseconds.
pub record BatchPolicy : Type 0 where
  pub size : ℕ
  pub max_batch : ℕ
  pub queued : ℕ
  pub linger : ℕ
  pub in_flight_limit : ℕ

pub record InFlightBatch : Type 0 where
  pub batch_id : ℕ
  pub slots : List SlotId
  pub proposed_at_nanos : ℕ

pub record Batcher : Type 0 where
  pub policy : BatchPolicy
  pub effects : List Effect
  pub slots : List SlotId
  pub opened_at_nanos : Option ℕ
  pub in_flight : List InFlightBatch
  pub next_batch_id : ℕ

abbrev pub new_batcher : BatchPolicy → Batcher
new_batcher policy = record {
  policy = policy;
  effects = [];
  slots = [];
  opened_at_nanos = none;
  in_flight = [];
  next_batch_id = 1;
}

abbrev is_empty {ℓ} : {A : Type ℓ} → List A → Bool
is_empty [] = true
is_empty (_ ∷ _) = false

unfoldable pub push : Batcher → Effect → SlotId → ℕ → Batcher
push b effect slot now = record b {
  effects = push_back b.effects effect;
  slots = push_back b.slots slot;
  opened_at_nanos = if is_empty b.effects then some now else b.opened_at_nanos;
}

unfoldable pub is_saturated : Batcher → Bool
is_saturated b = leb b.policy.queued (length b.effects)

-- The chain of the effect at a place.
abbrev pub chain_at : List Effect → ℕ → LinkedChainId
chain_at [] i = absent
chain_at (e ∷ es) zero = e.chain
chain_at (e ∷ es) (suc i) = chain_at es i

-- Whether a cut before place `t + 1` would fall inside a chain.
abbrev pub splits_chain : List Effect → ℕ → Bool
splits_chain effects t =
    ltb (suc t) (length effects)
    && not (is_absent (chain_at effects t))
    && chain_at effects t == chain_at effects (suc t)

unfoldable pub chain_boundary : List Effect → ℕ → ℕ
chain_boundary effects zero = zero
chain_boundary effects (suc t) =
    let earlier = chain_boundary effects t in if splits_chain effects t then earlier else suc t

-- `opened_at_nanos.is_some_and(...)`.
abbrev lingered : Option ℕ → ℕ → ℕ → Bool
lingered none now linger = false
lingered (some opened) now linger = leb linger (now - opened)

unfoldable pub is_due : Batcher → ℕ → Bool
is_due b now =
    not (is_empty b.effects)
    && ltb (length b.in_flight) b.policy.in_flight_limit
    && (leb b.policy.size (length b.effects) || lingered b.opened_at_nanos now b.policy.linger)

-- Where the next proposal is cut.
unfoldable pub cut : Batcher → ℕ
unfolding chain_boundary
cut b = chain_boundary b.effects (min (length b.effects) b.policy.max_batch)

abbrev detach : Batcher → ℕ → Batcher
detach b n = record b { effects = drop n b.effects; slots = drop n b.slots }

-- The batcher without what it hands over, the proposal, and the slots it will answer.
unfoldable pub take_proposal : Batcher → ℕ → Batcher × Option (RaftProposal × List SlotId)
unfolding is_due cut
take_proposal b now =
    if is_due b now
    then (
      detach b (cut b),
      some (
        record { batch_id = b.next_batch_id; effects = take (cut b) b.effects },
        take (cut b) b.slots,
      ),
    )
    else (b, none)

unfoldable pub on_proposed : Batcher → ℕ → List SlotId → ℕ → Batcher
on_proposed b batch_id slots now = record b {
  in_flight =
      push_back b.in_flight
        (record { batch_id = batch_id; slots = slots; proposed_at_nanos = now });
  next_batch_id = inc_word 64 b.next_batch_id;
  opened_at_nanos = if is_empty b.effects then none else b.opened_at_nanos;
}

-- A refused proposal goes back to the front.
unfoldable pub restore : Batcher → List Effect → List SlotId → Batcher
restore b effects slots =
    if is_empty b.effects
    then record b { effects = effects; slots = slots }
    else record b { effects = effects ++ b.effects; slots = slots ++ b.slots }

pop_front : Batcher → List InFlightBatch → Batcher × Option InFlightBatch
pop_front b [] = (b, none)
pop_front b (batch ∷ rest) = (record b { in_flight = rest }, some batch)

unfoldable pub next_committed : Batcher → Batcher × Option InFlightBatch
unfolding pop_front
next_committed b = pop_front b b.in_flight
