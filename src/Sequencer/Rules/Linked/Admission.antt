-- ===== src/Sequencer/Rules/Linked/Admission.antt =====
-- How a chain is put together from requests in stream order.
use my_ledger.Common.{
  ℕ, ◌+◌, ◌<◌, ◌≡◌, refl, sym, ◌∙◌, append-nil, suc, ap, arith, Bool, true, false, ◌&&◌, Option,
  none, some, List, [], ◌∷◌, ◌++◌, append_assoc, leb, ltb, ==_iff, if◌then◌else◌, length,
  length-append, option_or,
}
use my_ledger.Common.Map.{Map, lookup, insert, lookup-insert}
use my_ledger.Base.Ids.{AcctHandle, LinkedChainId}
use my_ledger.Base.Error.{LedgerError, linked_chain_too_long}
use my_ledger.Sequencer.State.Batcher.{SlotId}
use my_ledger.Sequencer.Rules.Linked.{
  LinkedChain, LinkedChains, new_chain, limited, with_leg, admit, admit_last, admit_linked, opened,
  add_leg, change_chain, change_found, change_closed,
}

-- A request that got a slot: its lane and the slot.
abbrev pub Leg : Type 0
Leg = AcctHandle × SlotId

abbrev join : LinkedChains × Option LinkedChainId → Leg → LinkedChains
join (l, none) leg = l
join (l, some id) leg = add_leg l id leg.0 leg.1

-- What the reactor does with each such request, in this order.
unfoldable pub submit : LinkedChains → Bool → Leg → LinkedChains
submit l linked leg = join (admit l linked) leg

unfoldable pub submit_linked : LinkedChains → List Leg → LinkedChains
submit_linked l [] = l
submit_linked l (leg ∷ legs) = submit_linked (submit l true leg) legs

unfoldable pub slots_of : List Leg → List SlotId
slots_of [] = []
slots_of (leg ∷ legs) = leg.1 ∷ slots_of legs

-- What the open chain becomes.
grown : ℕ → LinkedChain → List Leg → LinkedChain
grown m c [] = c
grown m c (leg ∷ legs) = grown m (with_leg leg.1 (limited m c)) legs

record IsOpen (l : LinkedChains) (c : LinkedChain) (m : ℕ) : Type 0 where
  chain : l.open_chain ≡ some c
  bound : l.max_legs ≡ m

id-limited : (m : ℕ) (c : LinkedChain) → (limited m c).id ≡ c.id
unfolding limited
id-limited m c = ground arith

legs-limited : (m : ℕ) (c : LinkedChain) → (limited m c).legs ≡ c.legs
unfolding limited
legs-limited m c = ground arith

failure-limited :
    (m : ℕ) (c : LinkedChain)
    → (limited m c).failure ≡ (
        if leb m (length c.legs)
        then option_or c.failure (some linked_chain_too_long)
        else c.failure)
unfolding limited
failure-limited m c = ground arith

change-open :
    (l : LinkedChains) (c : LinkedChain) (id : LinkedChainId) (f : LinkedChain → LinkedChain)
    → l.open_chain ≡ some c
    → c.id ≡ id
    → change_chain l id f ≡ record l { open_chain = some (f c) }
unfolding change_chain change_found
change-open l c id f e same = rw (e, (==_iff c.id id).1 same) refl

add_leg-IsOpen :
    (l : LinkedChains) (c : LinkedChain) (m : ℕ) (id : LinkedChainId) (leg : Leg)
    → c.id ≡ id
    → IsOpen l c m
    → IsOpen (add_leg l id leg.0 leg.1) (with_leg leg.1 c) m
unfolding add_leg
add_leg-IsOpen l c m id leg same v =
    rw (change-open l c id (with_leg leg.1) v.chain same) (record { chain = refl; bound = v.bound })

submit-IsOpen :
    (l : LinkedChains) (c : LinkedChain) (m : ℕ) (leg : Leg)
    → IsOpen l c m
    → IsOpen (submit l true leg) (with_leg leg.1 (limited m c)) m
unfolding submit admit admit_linked opened
submit-IsOpen l c m leg v =
    rw (v.chain, v.bound)
      (add_leg-IsOpen (record l { open_chain = some (limited m c); max_legs = m }) (limited m c) m
        c.id leg (id-limited m c) (record { chain = refl; bound = refl }))

submit_linked-IsOpen :
    (l : LinkedChains) (c : LinkedChain) (m : ℕ) (legs : List Leg)
    → IsOpen l c m
    → IsOpen (submit_linked l legs) (grown m c legs) m
unfolding submit_linked grown
submit_linked-IsOpen l c m [] v = v
submit_linked-IsOpen l c m (leg ∷ legs) v =
    submit_linked-IsOpen (submit l true leg) (with_leg leg.1 (limited m c)) m legs
      (submit-IsOpen l c m leg v)

first-IsOpen :
    (l : LinkedChains) (leg : Leg)
    → l.open_chain ≡ none
    → IsOpen
        (submit l true leg)
        (with_leg leg.1 (limited l.max_legs (new_chain l.next_id)))
        l.max_legs
unfolding submit admit admit_linked opened
first-IsOpen l leg none_open =
    let c = limited l.max_legs (new_chain l.next_id) in
    rw none_open (
      add_leg-IsOpen (record (opened l none).0 { open_chain = some c }) c l.max_legs l.next_id leg
        (id-limited l.max_legs (new_chain l.next_id)) (record { chain = refl; bound = refl }))

legs-grown :
    (m : ℕ) (c : LinkedChain) (legs : List Leg) → (grown m c legs).legs ≡ c.legs ++ slots_of legs
unfolding grown slots_of with_leg
legs-grown m c [] = sym (append-nil c.legs)
legs-grown m c (leg ∷ legs) =
    legs-grown m (with_leg leg.1 (limited m c)) legs
    ∙ rw (legs-limited m c) (append_assoc c.legs (leg.1 ∷ []) (slots_of legs))

id-grown : (m : ℕ) (c : LinkedChain) (legs : List Leg) → (grown m c legs).id ≡ c.id
unfolding grown with_leg
id-grown m c [] = refl
id-grown m c (leg ∷ legs) = id-grown m (with_leg leg.1 (limited m c)) legs ∙ id-limited m c

-- The failure of a chain of `k` legs after `n` more linked requests.
failure_after : ℕ → ℕ → ℕ → Option LedgerError → Option LedgerError
failure_after m k n f =
    if ltb m (k + n) && ltb 0 n then option_or f (some linked_chain_too_long) else f

failure_after-suc :
    (m k n : ℕ) (f : Option LedgerError)
    → failure_after m (k + 1) n (if leb m k then option_or f (some linked_chain_too_long) else f)
      ≡ failure_after m k (suc n) f
unfolding failure_after
failure_after-suc m k n none = ground arith
failure_after-suc m k n (some e) = ground arith

failure-grown :
    (m : ℕ) (c : LinkedChain) (legs : List Leg)
    → (grown m c legs).failure ≡ failure_after m (length c.legs) (length legs) c.failure
unfolding grown failure_after with_leg
failure-grown m c [] = ground arith
failure-grown m c (leg ∷ legs) =
    failure-grown m (with_leg leg.1 (limited m c)) legs
    ∙ rw (failure-limited m c, legs-limited m c, length-append c.legs (leg.1 ∷ []))
        (failure_after-suc m (length c.legs) (length legs) c.failure)

-- What the terminator finds is closed and gets its leg.
last-closed :
    (l : LinkedChains) (c : LinkedChain) (m : ℕ) (leg : Leg)
    → IsOpen l c m
    → (lookup c.id (submit l false leg).closed_chains
        ≡ some (with_leg leg.1 (record c { closed = true })))
      × ((submit l false leg).open_chain ≡ none)
unfolding submit admit admit_last add_leg change_chain change_found change_closed
last-closed l c m leg v =
    rw
      (
        v.chain,
        lookup-insert c.id c.id (record c { closed = true }) l.closed_chains,
        (==_iff c.id c.id).1 refl,
      )
      (
        rw
            (
              lookup-insert c.id c.id (with_leg leg.1 (record c { closed = true }))
                  (insert c.id (record c { closed = true }) l.closed_chains),
              (==_iff c.id c.id).1 refl,
            )
            refl,
        refl,
      )

-- A chain as the stream of its requests describes it: a first leg, any number of others, a terminator.
pub terminated : LinkedChains → Leg → List Leg → Leg → LinkedChains
terminated l leg legs last = submit (submit_linked (submit l true leg) legs) false last

lookup_at :
    {a b : LinkedChainId} {c : Option LinkedChain} (m : Map LinkedChain)
    → a ≡ b
    → lookup a m ≡ c
    → lookup b m ≡ c
lookup_at m same h = sym (ap (λ k. lookup k m) same) ∙ h

first_failure :
    (m : ℕ) (leg : Leg) (n : ℕ) (id : LinkedChainId)
    → 0 < m
    → failure_after m
        (length (with_leg leg.1 (limited m (new_chain id))).legs)
        n
        (with_leg leg.1 (limited m (new_chain id))).failure
      ≡ (if leb (n + 1) m then none else some linked_chain_too_long)
unfolding with_leg failure_after
first_failure m leg n id some_legs =
    rw (legs-limited m (new_chain id), failure-limited m (new_chain id)) (ground arith)

-- Where no chain is open, a run of linked requests and the request that ends it become one closed chain:
-- its legs are the requests in stream order, the terminator included, and it has failed exactly when the
-- linked requests alone are more than `max_legs`. The terminator is not counted, so a chain of
-- `max_legs + 1` legs is admitted.
pub terminated_lem :
    (l : LinkedChains) (leg : Leg) (legs : List Leg) (last : Leg)
    → l.open_chain ≡ none
    → 0 < l.max_legs
    → (c : LinkedChain) × (lookup l.next_id (terminated l leg legs last).closed_chains ≡ some c)
      × (c.legs ≡ leg.1 ∷ slots_of legs ++ last.1 ∷ [])
      × (c.failure
          ≡ (if leb (length legs + 1) l.max_legs then none else some linked_chain_too_long))
      × ((terminated l leg legs last).open_chain ≡ none)
unfolding terminated with_leg
terminated_lem l leg legs last none_open some_legs =
    let m = l.max_legs in
    let first = with_leg leg.1 (limited m (new_chain l.next_id)) in
    let c = grown m first legs in
    let v = submit_linked-IsOpen (submit l true leg) first m legs (first-IsOpen l leg none_open) in
    let closed = last-closed (submit_linked (submit l true leg) legs) c m last v in
    let id = id-grown m first legs ∙ id-limited m (new_chain l.next_id) in
    (
      with_leg last.1 (record c { closed = true }),
      lookup_at (terminated l leg legs last).closed_chains id closed.0,
      rw (legs-grown m first legs, legs-limited m (new_chain l.next_id)) refl,
      failure-grown m first legs ∙ first_failure m leg (length legs) l.next_id some_legs,
      closed.1,
    )
