-- ===== src/Pending/Orderer/Values.antt =====
-- pending/src/orderer.rs: which reply stands in a place.
use my_ledger.Common.{
  ℕ, ◌≡◌, ◌≢◌, refl, sym, ◌∙◌, ap, arith, Bool, true, false, Option, none, some, List, [], ◌∷◌,
  ==_iff, ◌==◌, if◌then◌else◌, either_branch,
}
use my_ledger.Common.Map.{lookup, lookup-insert}
use my_ledger.Base.Ids.{AccountId, Seq}
use my_ledger.Pending.Orderer.{
  Orderer, Lane, Held, lane_of, lane_or_new, enrolled, reserved, expect, fill, filled_lane,
  placed_by,
}
use my_ledger.Pending.Orderer.Waits.{lookup-insert_here, lookup-insert_away}

module _ {ℓ} {A : Type ℓ} where
  -- Among the replies that came, with the seqs they came for.
  pub data Came (seq : Seq) (value : A) : List (Seq × A) → Type ℓ where
    last : (before : List (Seq × A)) → Came seq value ((seq, value) ∷ before)
    earlier :
        (reply : Seq × A) {before : List (Seq × A)}
        → Came seq value before
        → Came seq value (reply ∷ before)

  -- Every place of a lane that is filled is filled by a reply that came for it.
  abbrev pub Places : List (Seq × A) → Lane A → Type ℓ
  Places replies lane =
      (seq : Seq) (held : Held A)
      → lookup seq lane.places ≡ some (some held)
      → Came seq held.value replies

  abbrev pub Kept : AccountId → List (Seq × A) → Orderer A → Type ℓ
  Kept id replies o = Places replies (lane_of o id)

  pub Places-empty : (replies : List (Seq × A)) → Places replies (lane_or_new none)
  unfolding lookup
  Places-empty replies seq held e = absurd (ground arith)

  enrolled-Kept :
      (o : Orderer A) (id : AccountId) (replies : List (Seq × A)) (lane : Lane A)
      → Places replies lane
      → Kept id replies (enrolled o id lane)
  enrolled-Kept o id replies lane kept =
      either_branch (Kept id replies) lane.in_rotation _ _
        (rw (lookup-insert_here id lane o.lanes) kept)
        (rw (lookup-insert_here id (record lane { in_rotation = true }) o.lanes) kept)

  enrolled_other-Kept :
      (o : Orderer A) (other id : AccountId) (replies : List (Seq × A)) (lane : Lane A)
      → other ≢ id
      → Kept id replies o
      → Kept id replies (enrolled o other lane)
  enrolled_other-Kept o other id replies lane away kept =
      either_branch (Kept id replies) lane.in_rotation _ _
        (rw (lookup-insert_away other id lane o.lanes away) kept)
        (rw (lookup-insert_away other id (record lane { in_rotation = true }) o.lanes away) kept)

  reserved-Places :
      (replies : List (Seq × A)) (lane : Lane A) (at : Seq)
      → Places replies lane
      → Places replies (reserved lane at)
  reserved-Places replies lane at kept seq held e = kept seq held (
      not_reserved (at == seq) (lookup seq lane.places) held
        (sym (lookup-insert at seq none lane.places) ∙ e))
    where
      not_reserved :
          (own : Bool) (rest : Option (Option (Held A))) (held : Held A)
          → (if own then some none else rest) ≡ some (some held)
          → rest ≡ some (some held)
      not_reserved true rest held h = absurd (ground arith)
      not_reserved false rest held h = h

  pub expect-Kept :
      (o : Orderer A) (id : AccountId) (replies : List (Seq × A)) (seq : Seq)
      → Kept id replies o
      → Kept id replies (expect o id seq)
  unfolding expect
  expect-Kept o id replies seq kept = either_branch (Kept id replies) (seq == 0) _ _ kept (
      enrolled-Kept o id replies (reserved (lane_of o id) seq)
        (reserved-Places replies (lane_of o id) seq kept))

  pub expect_other-Kept :
      (o : Orderer A) (other id : AccountId) (replies : List (Seq × A)) (seq : Seq)
      → other ≢ id
      → Kept id replies o
      → Kept id replies (expect o other seq)
  unfolding expect
  expect_other-Kept o other id replies seq away kept =
      either_branch (Kept id replies) (seq == 0) _ _ kept
        (enrolled_other-Kept o other id replies (reserved (lane_of o other) seq) away kept)

  filled_lane-Places :
      (replies : List (Seq × A)) (lane : Lane A) (at : Seq) (reply : Held A)
      → lane.swapped ≡ []
      → Places replies lane
      → Places ((at, reply.value) ∷ replies) (filled_lane lane at reply false)
  unfolding filled_lane lookup
  filled_lane-Places replies lane at reply quiet kept =
      placed (lookup at lane.swapped) (ap (lookup at) quiet)
    where
      own_or_kept :
          (own : Bool) (seq : Seq) (rest : Option (Option (Held A))) (held : Held A)
          → (at == seq) ≡ own
          → (if own then some (some reply) else rest) ≡ some (some held)
          → (rest ≡ some (some held) → Came seq held.value replies)
          → Came seq held.value ((at, reply.value) ∷ replies)
      own_or_kept true seq rest held e h old =
          own ((==_iff at seq).0 e) (ap (λ h. h.value) (same h))
        where
          same : some (some reply) ≡ some (some held) → reply ≡ held
          same h = cc h

          own :
              at ≡ seq
              → reply.value ≡ held.value
              → Came seq held.value ((at, reply.value) ∷ replies)
          own e v = rw (sym e, sym v) (last replies)
      own_or_kept false seq rest held e h old = earlier (at, reply.value) (old h)

      placed :
          (found : Option Seq)
          → found ≡ none
          → Places ((at, reply.value) ∷ replies) (placed_by lane at reply false found)
      placed (some seq) e = absurd (ground arith)
      placed none e = λ seq held h.
          own_or_kept (at == seq) seq (lookup seq lane.places) held refl
            (sym (lookup-insert at seq (some reply) lane.places) ∙ h) (kept seq held)

  more :
      (replies : List (Seq × A)) (lane : Lane A) (at : Seq) (value : A)
      → Places replies lane
      → Places ((at, value) ∷ replies) lane
  more replies lane at value kept seq held e = earlier (at, value) (kept seq held e)

  pub fill-Kept :
      (o : Orderer A) (id : AccountId) (replies : List (Seq × A)) (seq at : ℕ) (value : A)
      → o.violate_every ≡ 0
      → (lane_of o id).swapped ≡ []
      → Kept id replies o
      → Kept id ((seq, value) ∷ replies) (fill o id seq at value)
  unfolding fill
  fill-Kept o id replies seq at value faultless quiet kept =
      either_branch (Kept id ((seq, value) ∷ replies)) (seq == 0) _ _
        (enrolled-Kept _ id ((seq, value) ∷ replies) _ (more replies (lane_of o id) seq value kept))
        (rw faultless (
          enrolled-Kept _ id ((seq, value) ∷ replies) _
            (filled_lane-Places replies (lane_of o id) seq _ quiet kept)))

  pub fill_other-Kept :
      (o : Orderer A) (other id : AccountId) (replies : List (Seq × A)) (seq at : ℕ) (value : A)
      → other ≢ id
      → Kept id replies o
      → Kept id replies (fill o other seq at value)
  unfolding fill
  fill_other-Kept o other id replies seq at value away kept =
      either_branch (Kept id replies) (seq == 0) _ _
        (enrolled_other-Kept _ other id replies _ away kept)
        (enrolled_other-Kept _ other id replies _ away kept)
