-- ===== src/Pending/Orderer/Turns.antt =====
-- pending/src/orderer.rs, `pop_ready`: what a release does to the places of one lane.
use my_ledger.Common.{
  ℕ, zero, suc, ◌+◌, ◌≡◌, ◌≢◌, refl, sym, subst, ◌∙◌, arith, Bool, true, false, not, ◌&&◌, Option,
  none, some, List, [], ◌∷◌, ◌++◌, append-nil, append_assoc, ==_iff, ◌==◌, leb, ltb, if◌then◌else◌,
  is_some, inc_word, dec_word, ◌⊎◌, inl, inr, either_branch, Bool-cases, Option-cases,
}
use my_ledger.Common.Map.{lookup}
use my_ledger.Base.Ids.{AccountId, Seq, unordered}
use my_ledger.Pending.Orderer.{
  Orderer, Lane, Held, Left, lane_or_new, release_seq, head_of, left_lane, tail, is_filled,
  is_empty, is_idle, note_wait, take_out, due, by_seq, by_lane, to_back, turn, turns,
}
use my_ledger.Pending.Orderer.Order.{IsRun, next_is_no_exemption, inc_word-next, left_lane-IsRun}
use my_ledger.Pending.Orderer.Seqs.{seqs_from}
use my_ledger.Pending.Orderer.Waits.{
  Waits, Inv, Waits-same, lookup-insert_here, lookup-insert_away, not_equal,
}

place_of : Seq → List Seq
place_of seq = if seq == unordered then [] else seq ∷ []

which_seq :
    (empty filled : Bool) (next seq : Seq)
    → (if not empty then some unordered else if filled then some next else none) ≡ some seq
    → (seq ≡ 0) ⊎ ((seq ≡ next) × (filled ≡ true))
which_seq false filled next seq e = inl (cc e)
which_seq true true next seq e = inr (cc e, refl)
which_seq true false next seq e = absurd (cc e)

no_room : (next : ℕ) → (leb next next && ltb next (next + 0)) ≡ false
no_room next = ground arith

same : (id : ℕ) → (id == id) ≡ true
same id = ground arith

pub differ : (a b : ℕ) → (a == b) ≡ false → a ≢ b
differ a b e = ground (arith, e)

module _ {ℓ} {A : Type ℓ} where
  -- The place of a lane that a release has emptied, if it had one.
  unfoldable pub place_left : AccountId → Option (Left A) → List Seq
  unfolding place_of
  place_left id none = []
  place_left id (some reply) = if reply.lane == id then place_of reply.seq else []

  unfoldable pub After : AccountId → List Seq → List Seq → Orderer A × Option (Left A) → Type ℓ
  After id taken left result = Inv id taken (left ++ place_left id result.1) result.0

  filled_waits : (place : Option (Option (Held A))) → is_filled place ≡ true → is_some place ≡ true
  filled_waits none e = e
  filled_waits (some none) e = refl
  filled_waits (some (some held)) e = refl

  release_cases :
      (lane : Lane A) (seq : Seq)
      → release_seq lane ≡ some seq
      → (seq ≡ 0) ⊎ ((seq ≡ lane.next) × (is_some (lookup lane.next lane.places) ≡ true))
  unfolding release_seq
  release_cases lane seq e =
      elim (which_seq (is_empty lane.exempt) (is_filled (lookup lane.next lane.places)) lane.next
        seq e) [
          | inl exempt ↦ inl exempt
          | inr next ↦ inr (next.0, filled_waits (lookup lane.next lane.places) next.1)
        ]

  next_splits :
      (left : List Seq) (lane : Lane A) (n : ℕ)
      → IsRun (suc n) lane
      → left ++ seqs_from lane.next (suc n)
        ≡ (left ++ place_of lane.next) ++ seqs_from (left_lane lane lane.next).next n
  unfolding place_of left_lane seqs_from
  next_splits left lane n r = rw (next_is_no_exemption n lane r) (
      rw (inc_word-next n lane r)
        (sym (append_assoc left (lane.next ∷ []) (seqs_from (lane.next + 1) n))))

  next_left :
      (taken left : List Seq) (lane : Lane A) (n : ℕ)
      → IsRun n lane
      → taken ≡ left ++ seqs_from lane.next n
      → is_some (lookup lane.next lane.places) ≡ true
      → Waits taken (left ++ place_of lane.next) (left_lane lane lane.next)
  next_left taken left lane zero r splits there =
      absurd (cc (there, r.places_lem lane.next, no_room lane.next))
  next_left taken left lane (suc n) r splits there = record {
    count = n;
    is_run = left_lane-IsRun n lane r;
    splits = splits ∙ next_splits left lane n r;
  }

  released-Waits :
      (taken left : List Seq) (lane : Lane A) (seq : Seq)
      → Waits taken left lane
      → release_seq lane ≡ some seq
      → Waits taken (left ++ place_of seq) (left_lane lane seq)
  unfolding place_of left_lane
  released-Waits taken left lane seq w e = elim (release_cases lane seq e) [
    | inl exempt ↦
        rw exempt
          (rw (append-nil left) (Waits-same taken left lane lane.in_rotation (tail lane.exempt) w))
    | inr next ↦ rw next.0 (next_left taken left lane w.count w.is_run w.splits next.1)
  ]

  pub note_wait-keeps :
      (o : Orderer A) (held : Held A) (now : ℕ)
      → ((note_wait o held now).lanes ≡ o.lanes)
        × ((note_wait o held now).violate_every ≡ o.violate_every)
  note_wait-keeps o held now =
      either_branch
        (λ (o' : Orderer A). (o'.lanes ≡ o.lanes) × (o'.violate_every ≡ o.violate_every))
        held.blocked _ _ (refl, refl) (refl, refl)

  take_out-Inv :
      (o : Orderer A) (id : AccountId) (taken left : List Seq) (lane : Lane A) (seq : Seq)
      (held : Held A) (now : ℕ)
      → o.violate_every ≡ 0
      → Waits taken left (left_lane lane seq)
      → Inv id taken left (take_out o id lane seq held now)
  take_out-Inv o id taken left lane seq held now f w =
      let after = left_lane lane seq in
      let counted = record o { held = dec_word 64 o.held; released = inc_word 64 o.released } in
      either_branch (Inv id taken left) (is_idle after) _ _
        (record {
          faultless = (note_wait-keeps counted held now).1 ∙ f;
          waits =
              rw
                (lookup-insert_here id (record after { in_rotation = false })
                  (note_wait counted held now).lanes)
                (Waits-same taken left after false after.exempt w);
        })
        (record {
          faultless = (note_wait-keeps counted held now).1 ∙ f;
          waits = rw (lookup-insert_here id after (note_wait counted held now).lanes) w;
        })

  take_out_other-Inv :
      (o : Orderer A) (other id : AccountId) (taken left : List Seq) (lane : Lane A) (seq : Seq)
      (held : Held A) (now : ℕ)
      → other ≢ id
      → Inv id taken left o
      → Inv id taken left (take_out o other lane seq held now)
  take_out_other-Inv o other id taken left lane seq held now away inv =
      let after = left_lane lane seq in
      let counted = record o { held = dec_word 64 o.held; released = inc_word 64 o.released } in
      let lanes = (note_wait counted held now).lanes in
      either_branch (Inv id taken left) (is_idle after) _ _
        (record {
          faultless = (note_wait-keeps counted held now).1 ∙ inv.faultless;
          waits =
              rw (lookup-insert_away other id (record after { in_rotation = false }) lanes away)
                (rw (note_wait-keeps counted held now).0 inv.waits);
        })
        (record {
          faultless = (note_wait-keeps counted held now).1 ∙ inv.faultless;
          waits =
              rw (lookup-insert_away other id after lanes away)
                (rw (note_wait-keeps counted held now).0 inv.waits);
        })

  nothing-After :
      (o : Orderer A) (id : AccountId) (taken left : List Seq)
      → Inv id taken left o
      → After id taken left (o, none)
  unfolding After place_left
  nothing-After o id taken left inv = rw (append-nil left) inv

  waits_on-After :
      (o : Orderer A) (other id : AccountId) (taken left : List Seq)
      → Inv id taken left o
      → After id taken left (to_back o other, none)
  waits_on-After o other id taken left inv =
      nothing-After (to_back o other) id taken left
        (record { faultless = inv.faultless; waits = inv.waits })

  -- Another lane has its turn.
  away-After :
      (o : Orderer A) (other id : AccountId) (taken left : List Seq) (found : Option (Lane A))
      (now : ℕ)
      → other ≢ id
      → Inv id taken left o
      → After id taken left (by_lane o other found now)
  unfolding After place_left
  away-After o other id taken left none now away inv = nothing-After o id taken left inv
  away-After o other id taken left (some lane) now away inv = by_seq-After (release_seq lane)
    where
      due-After :
          (seq : Seq) (head : Option (Held A)) → After id taken left (due o other lane seq head now)
      due-After seq none = waits_on-After o other id taken left inv
      due-After seq (some held) =
          either_branch (After id taken left) (leb held.ready_at now) _ _
            (rw (not_equal other id away) (
              rw (append-nil left)
                (take_out_other-Inv o other id taken left lane seq held now away inv)))
            (waits_on-After o other id taken left inv)

      by_seq-After : (seq : Option Seq) → After id taken left (by_seq o other lane seq now)
      by_seq-After none = waits_on-After o other id taken left inv
      by_seq-After (some seq) = due-After seq (head_of lane seq)

  -- The lane itself has its turn.
  own-After :
      (o : Orderer A) (id : AccountId) (taken left : List Seq) (found : Option (Lane A)) (now : ℕ)
      → lookup id o.lanes ≡ found
      → Inv id taken left o
      → After id taken left (by_lane o id found now)
  unfolding After place_left
  own-After o id taken left none now here inv = nothing-After o id taken left inv
  own-After o id taken left (some lane) now here inv = by_seq-After (release_seq lane) refl
    where
      waits : Waits taken left lane
      waits = subst (λ found. Waits taken left (lane_or_new found)) here inv.waits

      due-After :
          (seq : Seq) (head : Option (Held A))
          → release_seq lane ≡ some seq
          → After id taken left (due o id lane seq head now)
      due-After seq none e = waits_on-After o id id taken left inv
      due-After seq (some held) e =
          either_branch (After id taken left) (leb held.ready_at now) _ _
            (rw (same id) (
              take_out-Inv o id taken (left ++ place_of seq) lane seq held now inv.faultless
                (released-Waits taken left lane seq waits e)))
            (waits_on-After o id id taken left inv)

      by_seq-After :
          (seq : Option Seq)
          → release_seq lane ≡ seq
          → After id taken left (by_seq o id lane seq now)
      by_seq-After none e = waits_on-After o id id taken left inv
      by_seq-After (some seq) e = due-After seq (head_of lane seq) e

  turn-After :
      (o : Orderer A) (id : AccountId) (taken left : List Seq) (rotation : List AccountId) (now : ℕ)
      → Inv id taken left o
      → After id taken left (turn o rotation now)
  turn-After o id taken left [] now inv = nothing-After o id taken left inv
  turn-After o id taken left (other ∷ rest) now inv = elim (Bool-cases (other == id)) [
    | inl e ↦
        rw ((==_iff other id).0 e)
          (own-After (record o { rotation = rest }) id taken left (lookup id o.lanes) now refl cut)
    | inr e ↦
        away-After (record o { rotation = rest }) other id taken left (lookup other o.lanes) now
          (differ other id e) cut
  ]
    where
      cut : Inv id taken left (record o { rotation = rest })
      cut = record { faultless = inv.faultless; waits = inv.waits }

  nothing_left :
      (id : AccountId) (taken left : List Seq) (result : Orderer A × Option (Left A))
      → result.1 ≡ none
      → After id taken left result
      → Inv id taken left result.0
  unfolding After place_left
  nothing_left id taken left result e after =
      subst (λ rest. Inv id taken rest result.0) (rw e (append-nil left)) after

  pub turns-After :
      (n : ℕ) (o : Orderer A) (id : AccountId) (taken left : List Seq) (now : ℕ)
      → Inv id taken left o
      → After id taken left (turns n o now)
  unfolding turns
  turns-After zero o id taken left now inv = nothing-After o id taken left inv
  turns-After (suc n) o id taken left now inv = elim (Option-cases (turn o o.rotation now).1) [
    | inl e ↦ rw e (
        turns-After n (turn o o.rotation now).0 id taken left now (
          nothing_left id taken left (turn o o.rotation now) e
            (turn-After o id taken left o.rotation now inv)))
    | inr found ↦ rw found.1 (turn-After o id taken left o.rotation now inv)
  ]
