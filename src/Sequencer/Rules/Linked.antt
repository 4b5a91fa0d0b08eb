-- ===== src/Sequencer/Rules/Linked.antt =====
-- sequencer/src/rules/linked.rs: the legs of one submission commit or roll back together. The pool of
-- leg buffers, which only spares allocations, is left out.
pub mod Admission
pub mod Readiness
use my_ledger.Common.{
  ℕ, Bool, true, false, not, ◌&&◌, Option, none, some, List, [], ◌∷◌, leb, ◌==◌, if◌then◌else◌,
  inc_word, dec_word, length, push_back, option_or,
}
use my_ledger.Common.Int.{pos, add_i64, eqb_ℤ}
use my_ledger.Common.Map.{Map, lookup, insert, remove}
use my_ledger.Base.Ids.{AcctHandle, Amount, LinkedChainId, TxId, is_absent}
use my_ledger.Base.Error.{LedgerError, linked_chain_too_long, linked_chain_unterminated}
use my_ledger.Base.Effect.{Effect, EffectKind, gain}
use my_ledger.Base.Ports.Pending.{HoldView}
use my_ledger.Sequencer.State.Batcher.{SlotId}

pub record LinkedChain : Type 0 where
  pub id : LinkedChainId
  pub legs : List SlotId
  pub gated : List SlotId
  pub outstanding : ℕ
  pub closed : Bool
  pub failure : Option LedgerError

abbrev pub is_complete : LinkedChain → Bool
is_complete c = c.closed && c.outstanding == 0

-- What exists only inside the chain being judged.
pub record LinkedScratch : Type 0 where
  pub gains : List (AcctHandle × Amount)
  pub holds : List (TxId × HoldView)

abbrev pub no_scratch : LinkedScratch
no_scratch = record { gains = []; holds = [] }

abbrev pub view_of : Effect → HoldView
view_of effect = record {
  debit_account = effect.debit_account;
  credit_account = effect.credit_account;
  ledger = effect.ledger;
  budget = effect.budget;
  budget_members = 0;
  budget_remaining = pos 0;
  remaining = effect.amount;
  resolved = false;
}

abbrev add : LinkedScratch → Option (AcctHandle × Amount) → LinkedScratch
add s none = s
add s (some gained) = record s { gains = push_back s.gains gained }

abbrev lower : HoldView → Amount → HoldView
lower view remaining = record view { remaining = remaining; resolved = eqb_ℤ remaining (pos 0) }

-- The first hold of that id, if there is one.
pub resolve_in : List (TxId × HoldView) → TxId → Amount → List (TxId × HoldView)
resolve_in [] hold remaining = []
resolve_in ((id, view) ∷ rest) hold remaining =
    let later = resolve_in rest hold remaining in
    if id == hold then (id, lower view remaining) ∷ rest else (id, view) ∷ later

abbrev note_kind : EffectKind → LinkedScratch → Effect → LinkedScratch
note_kind EffectKind.post s effect = s
note_kind EffectKind.hold s effect =
    if is_absent effect.budget
    then record s { holds = push_back s.holds (effect.tx_id, view_of effect) }
    else s
note_kind EffectKind.settle s effect = record s {
  holds = resolve_in s.holds effect.pending_ref effect.remaining_after;
}
note_kind EffectKind.void s effect = record s {
  holds = resolve_in s.holds effect.pending_ref effect.remaining_after;
}

unfoldable pub note : LinkedScratch → Effect → LinkedScratch
note s effect = note_kind effect.kind (add s (gain effect)) effect

pub find_hold : List (TxId × HoldView) → TxId → Option HoldView
find_hold [] hold = none
find_hold ((id, view) ∷ rest) hold =
    let later = find_hold rest hold in if id == hold then some view else later

-- `LinkedScratch::hold`.
unfoldable pub hold_of : LinkedScratch → TxId → Option HoldView
unfolding find_hold
hold_of s hold = find_hold s.holds hold

pub sum_gains : Amount → List (AcctHandle × Amount) → AcctHandle → Amount
sum_gains total [] handle = total
sum_gains total ((gained, amount) ∷ rest) handle =
    let with_it = sum_gains (add_i64 total amount) rest handle in
    let without_it = sum_gains total rest handle in if gained == handle then with_it else without_it

unfoldable pub available_for : LinkedScratch → AcctHandle → Amount
unfolding sum_gains
available_for s handle = sum_gains (pos 0) s.gains handle

pub record LinkedChains : Type 0 where
  pub open_chain : Option LinkedChain
  pub closed_chains : Map LinkedChain
  pub gates : Map LinkedChainId
  pub max_legs : ℕ
  pub next_id : ℕ

abbrev pub new_chains : ℕ → LinkedChains
new_chains max_legs = record {
  open_chain = none;
  closed_chains = [];
  gates = [];
  max_legs = max_legs;
  next_id = 1;
}

abbrev pub new_chain : LinkedChainId → LinkedChain
new_chain id = record {
  id = id;
  legs = [];
  gated = [];
  outstanding = 0;
  closed = false;
  failure = none;
}

-- `chain.failure.or(Some(error))`: the first failure stays.
abbrev pub fails : LedgerError → LinkedChain → LinkedChain
fails error c = record c { failure = option_or c.failure (some error) }

abbrev close : LinkedChain → LinkedChain
close c = record c { closed = true }

abbrev keep_closed : LinkedChains → LinkedChain → LinkedChains
keep_closed l c = record l { open_chain = none; closed_chains = insert c.id c l.closed_chains }

pub admit_last : LinkedChains → Option LinkedChain → LinkedChains × Option LinkedChainId
admit_last l none = (l, none)
admit_last l (some c) = (keep_closed l (close c), some c.id)

pub opened : LinkedChains → Option LinkedChain → LinkedChains × LinkedChain
opened l (some c) = (l, c)
opened l none = (record l { next_id = inc_word 32 l.next_id }, new_chain l.next_id)

unfoldable pub limited : ℕ → LinkedChain → LinkedChain
limited max_legs c = if leb max_legs (length c.legs) then fails linked_chain_too_long c else c

pub admit_linked : LinkedChains → LinkedChains × Option LinkedChainId
unfolding opened
admit_linked l =
    let o = opened l l.open_chain in
    (record o.0 { open_chain = some (limited l.max_legs o.1) }, some o.1.id)

-- A request without the linked flag ends the open chain and is its last leg.
unfoldable pub admit : LinkedChains → Bool → LinkedChains × Option LinkedChainId
unfolding admit_last admit_linked
admit l linked = if linked then admit_linked l else admit_last l l.open_chain

abbrev find_chain : Option LinkedChain → Map LinkedChain → LinkedChainId → Option LinkedChain
find_chain none m id = lookup id m
find_chain (some c) m id = if c.id == id then some c else lookup id m

-- `chain_mut`, to read.
unfoldable pub chain_at : LinkedChains → LinkedChainId → Option LinkedChain
chain_at l id = find_chain l.open_chain l.closed_chains id

change_closed :
    LinkedChains → LinkedChainId → Option LinkedChain → (LinkedChain → LinkedChain) → LinkedChains
change_closed l id none f = l
change_closed l id (some c) f = record l { closed_chains = insert id (f c) l.closed_chains }

change_found :
    LinkedChains → Option LinkedChain → LinkedChainId → (LinkedChain → LinkedChain) → LinkedChains
unfolding change_closed
change_found l none id f = change_closed l id (lookup id l.closed_chains) f
change_found l (some c) id f =
    if c.id == id
    then record l { open_chain = some (f c) }
    else change_closed l id (lookup id l.closed_chains) f

-- What is written through `chain_mut`.
pub change_chain : LinkedChains → LinkedChainId → (LinkedChain → LinkedChain) → LinkedChains
unfolding change_found
change_chain l id f = change_found l l.open_chain id f

unfoldable pub with_leg : SlotId → LinkedChain → LinkedChain
with_leg slot c = record c { legs = push_back c.legs slot; outstanding = inc_word 64 c.outstanding }

unfoldable pub add_leg : LinkedChains → LinkedChainId → AcctHandle → SlotId → LinkedChains
add_leg l id lane slot =
    let changed = change_chain l id (with_leg slot) in
    record changed { gates = insert lane id changed.gates }

unfoldable pub gate_for : LinkedChains → AcctHandle → Option LinkedChainId
gate_for l lane = lookup lane l.gates

unfoldable pub wait_behind : LinkedChains → LinkedChainId → SlotId → LinkedChains
wait_behind l id slot = change_chain l id (λ c. record c { gated = push_back c.gated slot })

unfoldable pub fail : LinkedChains → LinkedChainId → LedgerError → LinkedChains
fail l id error = change_chain l id (fails error)

-- Takes the chain out of the closed ones.
pub take_closed : LinkedChains → LinkedChainId → LinkedChains × Option LinkedChain
take_closed l id =
    (record l { closed_chains = remove id l.closed_chains }, lookup id l.closed_chains)

abbrev take_complete :
    LinkedChains → LinkedChainId → Option LinkedChain → LinkedChains × Option LinkedChain
take_complete l id none = (l, none)
take_complete l id (some c) = if is_complete c then take_closed l id else (l, none)

unfoldable pub settle_if_complete : LinkedChains → LinkedChainId → LinkedChains × Option LinkedChain
settle_if_complete l id = take_complete l id (chain_at l id)

abbrev pub one_ready : LinkedChain → LinkedChain
one_ready c = record c { outstanding = dec_word 64 c.outstanding }

-- The chain, once its last leg has its external results.
unfoldable pub leg_ready : LinkedChains → LinkedChainId → LinkedChains × Option LinkedChain
leg_ready l id = let l' = change_chain l id one_ready in take_complete l' id (chain_at l' id)

abandon : LinkedChains → Option LinkedChain → LinkedChains × Option LinkedChain
abandon l none = (l, none)
abandon l (some c) =
    let doomed = fails linked_chain_unterminated (close c) in
    if is_complete doomed
    then (record l { open_chain = none }, some doomed)
    else (keep_closed l doomed, none)

-- A chain still open at a batch boundary was abandoned.
unfoldable pub close_batch : LinkedChains → LinkedChains × Option LinkedChain
unfolding abandon
close_batch l = abandon l l.open_chain

pub drop_gates : Map LinkedChainId → LinkedChainId → Map LinkedChainId
drop_gates [] id = []
drop_gates ((lane, gate) ∷ rest) id =
    let kept = drop_gates rest id in if gate == id then kept else (lane, gate) ∷ kept

unfoldable pub open_gates : LinkedChains → LinkedChainId → LinkedChains
unfolding drop_gates
open_gates l id = record l { gates = drop_gates l.gates id }
