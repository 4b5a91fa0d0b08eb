-- ===== src/Sequencer/State/Batcher/Order.antt =====
-- What was judged first is proposed first, each effect with its own slot, and a refused proposal loses
-- and reorders nothing. `propose` is `Reactor::propose` of sequencer/src/reactor/apply.rs over the
-- batcher; whether consensus takes the proposal is its argument.
use my_ledger.Common.{
  ℕ, ◌≡◌, ◌∙◌, refl, sym, ap, Bool, true, false, Bool-cases, Option, none, some, List, [], ◌∷◌,
  ◌++◌, append-nil, append_assoc, arith, inl, inr, length, length-take, length-drop, length-append,
  take, take-append-drop,
}
use my_ledger.Base.Effect.{Effect}
use my_ledger.Base.Ports.Raft.{RaftProposal}
use my_ledger.Sequencer.State.Batcher.{
  Batcher, BatchPolicy, InFlightBatch, SlotId, new_batcher, push, take_proposal, is_due, cut,
  detach, on_proposed, restore, next_committed, pop_front, is_empty,
}

-- What consensus has been handed: the effects, and the slots they answer.
pub record Handed : Type 0 where
  pub effects : List Effect
  pub slots : List SlotId

abbrev nothing_handed : Handed
nothing_handed = record { effects = []; slots = [] }

offered : Bool → ℕ → Batcher × Option (RaftProposal × List SlotId) → Batcher × Handed
offered accepted now (b, none) = (b, nothing_handed)
offered true now (b, some (proposal, slots)) = (
  on_proposed b proposal.batch_id slots now,
  record { effects = proposal.effects; slots = slots },
)
offered false now (b, some (proposal, slots)) = (restore b proposal.effects slots, nothing_handed)

unfoldable pub propose : Batcher → ℕ → Bool → Batcher × Handed
unfolding offered
propose b now accepted = offered accepted now (take_proposal b now)

pub data BatchOp : Type 0 where
  pushes : Effect → SlotId → ℕ → BatchOp
  proposes : ℕ → Bool → BatchOp
  answers : BatchOp

pub step : Batcher → BatchOp → Batcher × Handed
step b (pushes effect slot now) = (push b effect slot now, nothing_handed)
step b (proposes now accepted) = propose b now accepted
step b answers = ((next_committed b).0, nothing_handed)

-- The effects and slots that an operation brings in.
abbrev judged : BatchOp → Handed
judged (pushes effect slot now) = record { effects = effect ∷ []; slots = slot ∷ [] }
judged _ = nothing_handed

abbrev join : Handed → Handed → Handed
join h k = record { effects = h.effects ++ k.effects; slots = h.slots ++ k.slots }

pub run : Batcher → List BatchOp → Batcher × Handed
run b [] = (b, nothing_handed)
run b (op ∷ ops) =
    let (b', handed) = step b op in let (b'', later) = run b' ops in (b'', join handed later)

unfoldable pub all_judged : List BatchOp → Handed
all_judged [] = nothing_handed
all_judged (op ∷ ops) = join (judged op) (all_judged ops)

-- Every effect has its slot.
abbrev pub IsPaired : Batcher → Type 0
IsPaired b = length b.effects ≡ length b.slots

-- A step hands over what was judged first and keeps the rest, in order, effects and slots alike.
pub record Conserves (b : Batcher) (brought : Handed) (b' : Batcher) (handed : Handed)
    : Type 0 where
  pub effects_kept : handed.effects ++ b'.effects ≡ b.effects ++ brought.effects
  pub slots_kept : handed.slots ++ b'.slots ≡ b.slots ++ brought.slots
  pub paired : IsPaired b'
  pub handed_paired : length handed.effects ≡ length handed.slots

is_empty-nil :
    (effects : List Effect) (slots : List SlotId)
    → is_empty effects ≡ true
    → length effects ≡ length slots
    → (effects ≡ []) × (slots ≡ [])
is_empty-nil [] [] e h = (refl, refl)
is_empty-nil [] (x ∷ slots) e h = absurd (omega arith)
is_empty-nil (x ∷ effects) slots e h = cc

restore-lem :
    (b : Batcher) (effects : List Effect) (slots : List SlotId)
    → IsPaired b
    → ((restore b effects slots).effects ≡ effects ++ b.effects)
      × ((restore b effects slots).slots ≡ slots ++ b.slots)
unfolding restore
restore-lem b effects slots paired =
    ground (arith, append-nil effects, append-nil slots, is_empty-nil b.effects b.slots)

push-Conserves :
    (b : Batcher) (effect : Effect) (slot : SlotId) (now : ℕ)
    → IsPaired b
    → Conserves b (judged (pushes effect slot now)) (push b effect slot now) nothing_handed
unfolding push
push-Conserves b effect slot now paired = record {
  effects_kept = refl;
  slots_kept = refl;
  paired = omega (arith, length-append b.effects (effect ∷ []), length-append b.slots (slot ∷ []));
  handed_paired = refl;
}

module _ (b : Batcher) (n now : ℕ) (paired : IsPaired b) where
  abbrev front : Handed
  front = record { effects = take n b.effects; slots = take n b.slots }

  detach-IsPaired : IsPaired (detach b n)
  detach-IsPaired = omega (arith, length-drop n b.effects, length-drop n b.slots)

  accepted-Conserves :
      Conserves b nothing_handed (on_proposed (detach b n) b.next_batch_id front.slots now) front
  unfolding on_proposed
  accepted-Conserves = record {
    effects_kept = take-append-drop n b.effects ∙ sym (append-nil b.effects);
    slots_kept = take-append-drop n b.slots ∙ sym (append-nil b.slots);
    paired = detach-IsPaired;
    handed_paired = omega (arith, length-take n b.effects, length-take n b.slots);
  }

  refused-Conserves :
      Conserves b nothing_handed (restore (detach b n) front.effects front.slots) nothing_handed
  refused-Conserves =
      let back = restore-lem (detach b n) front.effects front.slots detach-IsPaired in
      record {
        effects_kept = back.0 ∙ take-append-drop n b.effects ∙ sym (append-nil b.effects);
        slots_kept = back.1 ∙ take-append-drop n b.slots ∙ sym (append-nil b.slots);
        paired =
            ap length (back.0 ∙ take-append-drop n b.effects)
            ∙ paired
            ∙ sym (ap length (back.1 ∙ take-append-drop n b.slots));
        handed_paired = refl;
      }

  offered-Conserves :
      (accepted : Bool)
      → let r = offered accepted now (
        detach b n,
        some (record { batch_id = b.next_batch_id; effects = take n b.effects }, take n b.slots),
      ) in
        Conserves b nothing_handed r.0 r.1
  unfolding offered
  offered-Conserves true = accepted-Conserves
  offered-Conserves false = refused-Conserves

propose-Conserves :
    (b : Batcher) (now : ℕ) (accepted : Bool)
    → IsPaired b
    → Conserves b nothing_handed (propose b now accepted).0 (propose b now accepted).1
unfolding propose take_proposal
propose-Conserves b now accepted paired = elim (Bool-cases (is_due b now)) [
  | inl due ↦ rw (due, propose, take_proposal) (offered-Conserves b (cut b) now paired accepted)
  | inr waits ↦
      rw (waits, propose, take_proposal)
        (record {
          effects_kept = sym (append-nil b.effects);
          slots_kept = sym (append-nil b.slots);
          paired = paired;
          handed_paired = refl;
        })
]

answers-Conserves :
    (b : Batcher) → IsPaired b → Conserves b nothing_handed (next_committed b).0 nothing_handed
unfolding next_committed
answers-Conserves b paired = popped b.in_flight
  where
    popped :
        (in_flight : List InFlightBatch)
        → Conserves b nothing_handed (pop_front b in_flight).0 nothing_handed
    popped [] = record {
      effects_kept = sym (append-nil b.effects);
      slots_kept = sym (append-nil b.slots);
      paired = paired;
      handed_paired = refl;
    }
    popped (batch ∷ rest) = record {
      effects_kept = sym (append-nil b.effects);
      slots_kept = sym (append-nil b.slots);
      paired = paired;
      handed_paired = refl;
    }

step-Conserves :
    (b : Batcher) (op : BatchOp) → IsPaired b → Conserves b (judged op) (step b op).0 (step b op).1
unfolding step
step-Conserves b (pushes effect slot now) paired = push-Conserves b effect slot now paired
step-Conserves b (proposes now accepted) paired = propose-Conserves b now accepted paired
step-Conserves b answers paired = answers-Conserves b paired

joined {ℓ} :
    {A : Type ℓ} (h h' rest middle brought' front brought : List A)
    → h' ++ rest ≡ middle ++ brought'
    → h ++ middle ≡ front ++ brought
    → (h ++ h') ++ rest ≡ front ++ (brought ++ brought')
joined h h' rest middle brought' front brought d c =
    append_assoc h h' rest
    ∙ ap (◌++◌ h) d
    ∙ sym (append_assoc h middle brought')
    ∙ ap (λ t. t ++ brought') c
    ∙ append_assoc front brought brought'

join-Conserves :
    {b b' b'' : Batcher} {brought brought' handed handed' : Handed}
    → Conserves b brought b' handed
    → Conserves b' brought' b'' handed'
    → Conserves b (join brought brought') b'' (join handed handed')
join-Conserves {b} {b'} {b''} {brought} {brought'} {handed} {handed'} c d = record {
  effects_kept =
      joined handed.effects handed'.effects b''.effects b'.effects brought'.effects b.effects
        brought.effects d.effects_kept c.effects_kept;
  slots_kept =
      joined handed.slots handed'.slots b''.slots b'.slots brought'.slots b.slots brought.slots
        d.slots_kept c.slots_kept;
  paired = d.paired;
  handed_paired = omega (
    arith,
    length-append handed.effects handed'.effects,
    length-append handed.slots handed'.slots,
    c.handed_paired,
    d.handed_paired,
  );
}

run-Conserves :
    (b : Batcher) (ops : List BatchOp)
    → IsPaired b
    → Conserves b (all_judged ops) (run b ops).0 (run b ops).1
unfolding run all_judged
run-Conserves b [] paired = record {
  effects_kept = sym (append-nil b.effects);
  slots_kept = sym (append-nil b.slots);
  paired = paired;
  handed_paired = refl;
}
run-Conserves b (op ∷ ops) paired =
    let first = step-Conserves b op paired in
    join-Conserves first (run-Conserves (step b op).0 ops first.paired)

-- For every history of judged effects, proposals that consensus took or refused, and answers: what
-- consensus was handed so far, followed by what still waits, is exactly what was judged, in the order
-- it was judged, and the slots run in step with their effects.
pub run-fifo :
    (policy : BatchPolicy) (ops : List BatchOp)
    → let (b, handed) = run (new_batcher policy) ops in
      (handed.effects ++ b.effects ≡ (all_judged ops).effects)
      × (handed.slots ++ b.slots ≡ (all_judged ops).slots)
      × (length handed.effects ≡ length handed.slots)
run-fifo policy ops =
    let c = run-Conserves (new_batcher policy) ops refl in
    (c.effects_kept, c.slots_kept, c.handed_paired)
