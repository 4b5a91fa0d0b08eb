-- ===== src/Pending/Orderer/Given.antt =====
-- pending/src/orderer.rs, `pop_ready`: the reply that a release hands out.
use my_ledger.Common.{
  ℕ, zero, suc, inc_word, dec_word, ◌≡◌, ◌≢◌, refl, sym, subst, ◌∙◌, ap, arith, Bool, true, false,
  Option, none, some, List, [], ◌∷◌, length, ==_iff, ◌==◌, is_some, if◌then◌else◌, leb, ◌⊎◌, inl,
  inr, either_branch, Bool-cases,
}
use my_ledger.Common.Map.{lookup, lookup-remove}
use my_ledger.Base.Ids.{AccountId, Seq, unordered}
use my_ledger.Pending.Orderer.{
  Orderer, Lane, Held, Left, lane_or_new, note_wait, is_idle, release_seq, head_of, left_lane, flat,
  front, take_out, due, by_seq, by_lane, to_back, turn, turns, pop_ready,
}
use my_ledger.Pending.Orderer.Turns.{differ, note_wait-keeps}
use my_ledger.Pending.Orderer.Waits.{lookup-insert_here, lookup-insert_away, not_equal}
use my_ledger.Pending.Orderer.Values.{Came, Places, Kept}

module _ {ℓ} {A : Type ℓ} where
  -- A place that its reply has left, and a release of the lane's exempt replies, leave the others.
  left_lane-Places :
      (replies : List (Seq × A)) (lane : Lane A) (at : Seq)
      → Places replies lane
      → Places replies (left_lane lane at)
  unfolding left_lane
  left_lane-Places replies lane at kept =
      either_branch (Places replies) (at == 0) _ _ kept (λ seq held e. kept seq held (
        not_left (at == seq) (lookup seq lane.places) held
          (sym (lookup-remove at seq lane.places) ∙ e)))
    where
      not_left :
          (own : Bool) (rest : Option (Option (Held A))) (held : Held A)
          → (if own then none else rest) ≡ some (some held)
          → rest ≡ some (some held)
      not_left true rest held h = absurd (ground arith)
      not_left false rest held h = h

  -- What a turn or a release leaves of a lane, and the reply that it hands out.
  unfoldable pub Given : AccountId → List (Seq × A) → Orderer A × Option (Left A) → Type ℓ
  Given id replies result =
      Kept id replies result.0
      × ((reply : Left A)
          → result.1 ≡ some reply
          → reply.lane ≡ id
          → reply.seq ≢ unordered
          → Came reply.seq reply.held.value replies)

  nothing-Given :
      (o : Orderer A) (id : AccountId) (replies : List (Seq × A))
      → Kept id replies o
      → Given id replies (o, none)
  unfolding Given
  nothing-Given o id replies kept = (kept, λ reply e. absurd (ground arith))

  take_out-Kept :
      (o : Orderer A) (id : AccountId) (replies : List (Seq × A)) (lane : Lane A) (seq : Seq)
      (held : Held A) (now : ℕ)
      → Places replies lane
      → Kept id replies (take_out o id lane seq held now)
  take_out-Kept o id replies lane seq held now kept =
      let after = left_lane lane seq in
      let counted = record o { held = dec_word 64 o.held; released = inc_word 64 o.released } in
      let lanes = (note_wait counted held now).lanes in
      either_branch (Kept id replies) (is_idle after) _ _
        (rw (lookup-insert_here id (record after { in_rotation = false }) lanes)
          (left_lane-Places replies lane seq kept))
        (rw (lookup-insert_here id after lanes) (left_lane-Places replies lane seq kept))

  take_out_other-Kept :
      (o : Orderer A) (other id : AccountId) (replies : List (Seq × A)) (lane : Lane A) (seq : Seq)
      (held : Held A) (now : ℕ)
      → other ≢ id
      → Kept id replies o
      → Kept id replies (take_out o other lane seq held now)
  take_out_other-Kept o other id replies lane seq held now away kept =
      let after = left_lane lane seq in
      let counted = record o { held = dec_word 64 o.held; released = inc_word 64 o.released } in
      let lanes = (note_wait counted held now).lanes in
      either_branch (Kept id replies) (is_idle after) _ _
        (rw (lookup-insert_away other id (record after { in_rotation = false }) lanes away)
          (rw (note_wait-keeps counted held now).0 kept))
        (rw (lookup-insert_away other id after lanes away)
          (rw (note_wait-keeps counted held now).0 kept))

  nobody :
      (o : Orderer A) (id : AccountId) (replies : List (Seq × A)) (other : AccountId)
      → Kept id replies o
      → Given id replies (to_back o other, none)
  nobody o id replies other kept = nothing-Given (to_back o other) id replies kept

  -- The head of a lane for a seq of its own stands in that seq's place.
  head_of-Came :
      (replies : List (Seq × A)) (lane : Lane A) (seq : Seq) (held : Held A)
      → head_of lane seq ≡ some held
      → seq ≢ unordered
      → Places replies lane
      → Came seq held.value replies
  unfolding head_of
  head_of-Came replies lane seq held e ordered kept = kept seq held (
      in_place (lookup seq lane.places) (
        ordered_head (seq == 0) (front lane.exempt) (flat (lookup seq lane.places))
          (not_equal seq 0 ordered) e))
    where
      ordered_head :
          (exempt : Bool) (a b : Option (Held A))
          → exempt ≡ false
          → (if exempt then a else b) ≡ some held
          → b ≡ some held
      ordered_head true a b off h = absurd (ground arith)
      ordered_head false a b off h = h

      in_place :
          (place : Option (Option (Held A))) → flat place ≡ some held → place ≡ some (some held)
      in_place none h = absurd (ground arith)
      in_place (some place) h = ap some h

  leaves-Given :
      (o : Orderer A) (id : AccountId) (replies : List (Seq × A)) (lane : AccountId) (seq : Seq)
      (held : Held A)
      → Kept id replies o
      → (lane ≡ id → seq ≢ unordered → Came seq held.value replies)
      → Given id replies (o, some (record { lane = lane; seq = seq; held = held }))
  unfolding Given
  leaves-Given o id replies lane seq held kept came = (
    kept,
    λ reply e own ordered.
        subst (λ (r : Left A). Came r.seq r.held.value replies) (it reply e)
          (came (ap (λ (r : Left A). r.lane) (it reply e) ∙ own)
            (λ free. ordered (ap (λ (r : Left A). r.seq) (sym (it reply e)) ∙ free))),
  )
    where
      it :
          (reply : Left A)
          → some (record { lane = lane; seq = seq; held = held }) ≡ some reply
          → record { lane = lane; seq = seq; held = held } ≡ reply
      it reply e = cc e

  due-Given :
      (o : Orderer A) (other id : AccountId) (replies : List (Seq × A)) (lane : Lane A) (seq : Seq)
      (head : Option (Held A)) (now : ℕ)
      → head_of lane seq ≡ head
      → Kept id replies o
      → (other ≡ id → Places replies lane)
      → Given id replies (due o other lane seq head now)
  due-Given o other id replies lane seq none now e kept own = nobody o id replies other kept
  due-Given o other id replies lane seq (some held) now e kept own =
      either_branch (Given id replies) (leb held.ready_at now) _ _
        (leaves (Bool-cases (other == id))) (nobody o id replies other kept)
    where
      leaves :
          ((other == id) ≡ true) ⊎ ((other == id) ≡ false)
          → Given id replies (
            take_out o other lane seq held now,
            some (record { lane = other; seq = seq; held = held }),
          )
      leaves (inl same) =
          let at = (==_iff other id).0 same in
          rw at (
            leaves-Given (take_out o id lane seq held now) id replies id seq held
              (take_out-Kept o id replies lane seq held now (own at))
              (λ _ ordered. head_of-Came replies lane seq held e ordered (own at)))
      leaves (inr away) =
          leaves-Given (take_out o other lane seq held now) id replies other seq held
            (take_out_other-Kept o other id replies lane seq held now (differ other id away) kept)
            (λ same _. absurd (differ other id away same))

  by_seq-Given :
      (o : Orderer A) (other id : AccountId) (replies : List (Seq × A)) (lane : Lane A)
      (seq : Option Seq) (now : ℕ)
      → Kept id replies o
      → (other ≡ id → Places replies lane)
      → Given id replies (by_seq o other lane seq now)
  by_seq-Given o other id replies lane none now kept own = nobody o id replies other kept
  by_seq-Given o other id replies lane (some seq) now kept own =
      due-Given o other id replies lane seq (head_of lane seq) now refl kept own

  by_lane-Given :
      (o : Orderer A) (other id : AccountId) (replies : List (Seq × A)) (found : Option (Lane A))
      (now : ℕ)
      → lookup other o.lanes ≡ found
      → Kept id replies o
      → Given id replies (by_lane o other found now)
  by_lane-Given o other id replies none now e kept = nothing-Given o id replies kept
  by_lane-Given o other id replies (some lane) now e kept =
      by_seq-Given o other id replies lane (release_seq lane) now kept (λ same.
        subst (λ found. Places replies (lane_or_new found)) e
          (subst (λ at. Kept at replies o) (sym same) kept))

  turn-Given :
      (o : Orderer A) (id : AccountId) (replies : List (Seq × A)) (rotation : List AccountId)
      (now : ℕ)
      → Kept id replies o
      → Given id replies (turn o rotation now)
  turn-Given o id replies [] now kept = nothing-Given o id replies kept
  turn-Given o id replies (other ∷ rest) now kept =
      by_lane-Given (record o { rotation = rest }) other id replies (lookup other o.lanes) now refl
        kept

  turns-Given :
      (n : ℕ) (o : Orderer A) (id : AccountId) (replies : List (Seq × A)) (now : ℕ)
      → Kept id replies o
      → Given id replies (turns n o now)
  unfolding turns Given
  turns-Given zero o id replies now kept = nothing-Given o id replies kept
  turns-Given (suc n) o id replies now kept =
      either_branch (Given id replies) (is_some (turn o o.rotation now).1) _ _
        (turn-Given o id replies o.rotation now kept)
        (turns-Given n (turn o o.rotation now).0 id replies now
          (turn-Given o id replies o.rotation now kept).0)

  pub pop_ready-Given :
      (o : Orderer A) (id : AccountId) (replies : List (Seq × A)) (now : ℕ)
      → Kept id replies o
      → Given id replies (pop_ready o now)
  unfolding pop_ready
  pop_ready-Given o id replies now kept = turns-Given (length o.rotation) o id replies now kept
