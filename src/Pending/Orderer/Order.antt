-- ===== src/Pending/Orderer/Order.antt =====
-- pending/src/orderer.rs: the places of one lane, and what reserving, filling and releasing do to them.
use my_ledger.Common.{
  ℕ, zero, suc, ◌+◌, ◌<◌, ◌≤◌, ◌≡◌, ◌≢◌, refl, ◌∙◌, arith, true, false, ◌&&◌, ◌==◌, inl, inr, ◌⊎◌,
  Option, none, some, List, [], ◌∷◌, ltb, leb, is_some, inc_word, ◌^◌,
}
use my_ledger.Common.Map.{Map, lookup, lookup-insert, lookup-remove}
use my_ledger.Base.Ids.{Seq}
use my_ledger.Pending.Orderer.{Lane, Held, is_empty, reserved, filled_lane, left_lane}

-- `n` seqs from one on.
unfoldable pub seqs_from : Seq → ℕ → List Seq
seqs_from next zero = []
seqs_from next (suc n) = next ∷ seqs_from (suc next) n

module _ {ℓ} {A : Type ℓ} where
  -- The places of a lane are those of the `n` seqs from the next one on.
  pub record IsRun (n : ℕ) (lane : Lane A) : Type ℓ where
    pub places_lem :
        (seq : Seq)
        → is_some (lookup seq lane.places) ≡ (leb lane.next seq && ltb seq (lane.next + n))
    pub unswapped : lane.swapped ≡ []
    pub ordered : (n ≡ 0) ⊎ ((1 ≤ lane.next) × (lane.next + n < 2 ^ 64))

  empty_places :
      (places : Map (Option (Held A)))
      → ((seq : Seq) → is_some (lookup seq places) ≡ false)
      → is_empty places ≡ true
  unfolding lookup
  empty_places [] h = refl
  empty_places ((k, v) ∷ rest) h = absurd (ground (arith, h k))

  pub IsRun-quiet : (lane : Lane A) → IsRun 0 lane → is_empty lane.places ≡ true
  IsRun-quiet lane r = empty_places lane.places (λ seq. r.places_lem seq ∙ no_room seq lane.next)
    where
      no_room : (seq next : ℕ) → (leb next seq && ltb seq (next + 0)) ≡ false
      no_room seq next = ground arith

  waits :
      (places : Map (Option (Held A))) (seq : Seq)
      → is_some (lookup seq places) ≡ true
      → is_empty places ≡ false
  unfolding lookup
  waits [] seq h = absurd (ground arith)
  waits (p ∷ rest) seq h = refl

  pub IsRun-waits : (n : ℕ) (lane : Lane A) → IsRun (suc n) lane → is_empty lane.places ≡ false
  IsRun-waits n lane r = waits lane.places lane.next (r.places_lem lane.next ∙ ground arith)

  pub bounds_of :
      (n : ℕ) (lane : Lane A) → IsRun (suc n) lane → (1 ≤ lane.next) × (lane.next + suc n < 2 ^ 64)
  bounds_of n lane r = elim r.ordered [ inl e ↦ ground (arith, e) | inr bounds ↦ bounds ]

  pub next_is_no_exemption : (n : ℕ) (lane : Lane A) → IsRun (suc n) lane → (lane.next == 0) ≡ false
  next_is_no_exemption n lane r = ground (arith, (bounds_of n lane r).0)

  pub inc_word-next :
      (n : ℕ) (lane : Lane A) → IsRun (suc n) lane → inc_word 64 lane.next ≡ lane.next + 1
  inc_word-next n lane r = let bounds = (bounds_of n lane r).1 in omega arith

  -- The first place that is reserved on a quiet lane says where its run begins.
  pub reserved-first :
      (lane : Lane A) (seq : Seq)
      → IsRun 0 lane
      → seq ≢ 0
      → seq + 1 < 2 ^ 64
      → IsRun 1 (reserved lane seq)
  reserved-first lane seq r nonzero fits = record {
    places_lem = λ s.
        rw (IsRun-quiet lane r)
          (rw (lookup-insert seq s none lane.places) (ground (arith, r.places_lem s)));
    unswapped = r.unswapped;
    ordered = inr (rw (IsRun-quiet lane r) (ground (arith, nonzero), fits));
  }

  pub reserved-later :
      (n : ℕ) (lane : Lane A)
      → IsRun (suc n) lane
      → lane.next + suc n + 1 < 2 ^ 64
      → IsRun (suc (suc n)) (reserved lane (lane.next + suc n))
  reserved-later n lane r fits = record {
    places_lem = λ s. rw (IsRun-waits n lane r) (
        rw (lookup-insert (lane.next + suc n) s none lane.places) (ground (arith, r.places_lem s)));
    unswapped = r.unswapped;
    ordered = inr (rw (IsRun-waits n lane r) ((bounds_of n lane r).0, omega arith));
  }

  pub filled_lane-IsRun :
      (n : ℕ) (lane : Lane A) (seq : Seq) (held : Held A)
      → IsRun n lane
      → is_some (lookup seq lane.places) ≡ true
      → IsRun n (filled_lane lane seq held false)
        × ((filled_lane lane seq held false).next ≡ lane.next)
  unfolding filled_lane lookup
  filled_lane-IsRun n lane seq held r there = rw r.unswapped (
    record {
      places_lem = λ s.
          rw (lookup-insert seq s (some held) lane.places)
            (ground (arith, r.places_lem s, r.places_lem seq, there));
      unswapped = refl;
      ordered = r.ordered;
    },
    refl,
  )

  pub left_lane-IsRun :
      (n : ℕ) (lane : Lane A) → IsRun (suc n) lane → IsRun n (left_lane lane lane.next)
  unfolding left_lane
  left_lane-IsRun n lane r = rw (next_is_no_exemption n lane r) (
      rw (inc_word-next n lane r) (record {
        places_lem =
            λ s. rw (lookup-remove lane.next s lane.places) (ground (arith, r.places_lem s));
        unswapped = r.unswapped;
        ordered = inr (omega arith, let bounds = (bounds_of n lane r).1 in omega arith);
      }))
