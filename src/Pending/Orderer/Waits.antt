-- ===== src/Pending/Orderer/Waits.antt =====
-- pending/src/orderer.rs: one lane among the others, when a command or a completion arrives.
use my_ledger.Common.{
  ℕ, zero, suc, ◌+◌, ◌≡◌, ◌≢◌, refl, ap, ◌∙◌, arith, Bool, true, false, some, List, [], ◌∷◌, ◌++◌,
  push_back, append_assoc, ◌==◌, is_some, inc_word, subst, ◌^◌, ◌<◌, ◌⊎◌, inl, inr, either_branch,
}
use my_ledger.Common.Map.{Map, lookup, insert, lookup-insert}
use my_ledger.Base.Ids.{AccountId, Seq}
use my_ledger.Pending.Orderer.{
  Orderer, Lane, Held, lane_of, enrolled, reserved, expect, fill, fill_exempt, fill_place, violates,
}
use my_ledger.Pending.Orderer.Order.{
  IsRun, IsRun-quiet, reserved-first, reserved-later, filled_lane-IsRun, IsRun-waits,
}
use my_ledger.Pending.Orderer.Seqs.{seqs_from, Follows, Follows-next, push_back-seqs_from}

pub not_equal : (a b : ℕ) → a ≢ b → (a == b) ≡ false
not_equal a b away = ground (arith, away)

module _ {ℓ} {A : Type ℓ} where
  -- The seqs that have a place are those that were reserved and have not left.
  pub record Waits (taken left : List Seq) (lane : Lane A) : Type ℓ where
    pub count : ℕ
    pub is_run : IsRun count lane
    pub splits : taken ≡ left ++ seqs_from lane.next count

  pub record Inv (id : AccountId) (taken left : List Seq) (o : Orderer A) : Type ℓ where
    pub faultless : o.violate_every ≡ 0
    pub waits : Waits taken left (lane_of o id)

  -- Neither the rotation nor the exempt replies are part of it.
  pub Waits-same :
      (taken left : List Seq) (lane : Lane A) (in_rotation : Bool) (exempt : List (Held A))
      → Waits taken left lane
      → Waits taken left (record lane { in_rotation = in_rotation; exempt = exempt })
  Waits-same taken left lane in_rotation exempt w = record {
    count = w.count;
    is_run = record {
      places_lem = w.is_run.places_lem;
      unswapped = w.is_run.unswapped;
      ordered = w.is_run.ordered;
    };
    splits = w.splits;
  }

  pub lookup-insert_here :
      (id : AccountId) (lane : Lane A) (lanes : Map (Lane A))
      → lookup id (insert id lane lanes) ≡ some lane
  lookup-insert_here id lane lanes = rw (lookup-insert id id lane lanes) (ground arith)

  pub lookup-insert_away :
      (other id : AccountId) (lane : Lane A) (lanes : Map (Lane A))
      → other ≢ id
      → lookup id (insert other lane lanes) ≡ lookup id lanes
  lookup-insert_away other id lane lanes away =
      rw (lookup-insert other id lane lanes) (ground (arith, away))

  enrolled-Inv :
      (o : Orderer A) (id : AccountId) (taken left : List Seq) (lane : Lane A)
      → o.violate_every ≡ 0
      → Waits taken left lane
      → Inv id taken left (enrolled o id lane)
  enrolled-Inv o id taken left lane f w =
      either_branch (Inv id taken left) lane.in_rotation _ _
        (record { faultless = f; waits = rw (lookup-insert_here id lane o.lanes) w })
        (record {
          faultless = f;
          waits =
              rw (lookup-insert_here id (record lane { in_rotation = true }) o.lanes)
                (Waits-same taken left lane true lane.exempt w);
        })

  enrolled_other-Inv :
      (o : Orderer A) (other id : AccountId) (taken left : List Seq) (lane : Lane A)
      → other ≢ id
      → Inv id taken left o
      → Inv id taken left (enrolled o other lane)
  enrolled_other-Inv o other id taken left lane away inv =
      either_branch (Inv id taken left) lane.in_rotation _ _
        (record {
          faultless = inv.faultless;
          waits = rw (lookup-insert_away other id lane o.lanes away) inv.waits;
        })
        (record {
          faultless = inv.faultless;
          waits =
              rw (lookup-insert_away other id (record lane { in_rotation = true }) o.lanes away)
                inv.waits;
        })

  reserved-Waits :
      (taken left : List Seq) (lane : Lane A) (seq n : ℕ)
      → IsRun n lane
      → taken ≡ left ++ seqs_from lane.next n
      → seq ≢ 0
      → seq + 1 < 2 ^ 64
      → Follows taken left seq
      → Waits (push_back taken seq) left (reserved lane seq)
  unfolding seqs_from
  reserved-Waits taken left lane seq zero r splits nonzero fits follows = record {
    count = 1;
    is_run = reserved-first lane seq r nonzero fits;
    splits = rw (IsRun-quiet lane r) (rw splits (append_assoc left [] (seq ∷ [])));
  }
  reserved-Waits taken left lane seq (suc n) r splits nonzero fits follows =
      rw (Follows-next taken left seq lane.next n splits follows) (record {
        count = suc (suc n);
        is_run = reserved-later n lane r (
            subst (λ s. s + 1 < 2 ^ 64) (Follows-next taken left seq lane.next n splits follows)
              fits);
        splits = rw (IsRun-waits n lane r) (
            rw splits (
              append_assoc left (seqs_from lane.next (suc n)) _
              ∙ ap (λ rest. left ++ rest) (push_back-seqs_from lane.next (suc n))));
      })

  pub expect-Inv :
      (o : Orderer A) (id : AccountId) (taken left : List Seq) (seq : Seq)
      → Inv id taken left o
      → seq ≢ 0
      → seq + 1 < 2 ^ 64
      → Follows taken left seq
      → Inv id (push_back taken seq) left (expect o id seq)
  unfolding expect
  expect-Inv o id taken left seq inv nonzero fits follows = rw (not_equal seq 0 nonzero) (
      enrolled-Inv o id (push_back taken seq) left (reserved (lane_of o id) seq) inv.faultless (
        reserved-Waits taken left (lane_of o id) seq inv.waits.count inv.waits.is_run
          inv.waits.splits nonzero fits follows))

  pub expect_other-Inv :
      (o : Orderer A) (other id : AccountId) (taken left : List Seq) (seq : Seq)
      → other ≢ id
      → Inv id taken left o
      → Inv id taken left (expect o other seq)
  unfolding expect
  expect_other-Inv o other id taken left seq away inv =
      either_branch (Inv id taken left) (seq == 0) _ _ inv
        (enrolled_other-Inv o other id taken left (reserved (lane_of o other) seq) away inv)

  no_fault : (o : Orderer A) (seq : Seq) → o.violate_every ≡ 0 → violates o seq ≡ false
  no_fault o seq f = rw f refl

  -- An exempt reply.
  exempt-Inv :
      (o : Orderer A) (id : AccountId) (taken left : List Seq) (held : Held A)
      → Inv id taken left o
      → Inv id taken left (fill_exempt o id held)
  exempt-Inv o id taken left held inv = enrolled-Inv _ id taken left _ inv.faultless (
      Waits-same taken left (lane_of o id) (lane_of o id).in_rotation
        (push_back (lane_of o id).exempt held) inv.waits)

  -- A reply that fills its place.
  place-Inv :
      (o : Orderer A) (id : AccountId) (taken left : List Seq) (seq : Seq) (held : Held A)
      → Inv id taken left o
      → is_some (lookup seq (lane_of o id).places) ≡ true
      → Inv id taken left (fill_place o id seq held false)
  place-Inv o id taken left seq held inv there =
      let filled =
        filled_lane-IsRun inv.waits.count (lane_of o id) seq held inv.waits.is_run there in
      enrolled-Inv _ id taken left _ inv.faultless (record {
        count = inv.waits.count;
        is_run = filled.0;
        splits = rw filled.1 inv.waits.splits;
      })

  counted-Inv :
      (o : Orderer A) (id : AccountId) (taken left : List Seq)
      → Inv id taken left o
      → Inv id taken left (record o { pushes = inc_word 32 o.pushes })
  counted-Inv o id taken left inv = record { faultless = inv.faultless; waits = inv.waits }

  pub fill-Inv :
      (o : Orderer A) (id : AccountId) (taken left : List Seq) (seq at : ℕ) (value : A)
      → Inv id taken left o
      → (seq ≡ 0) ⊎ (is_some (lookup seq (lane_of o id).places) ≡ true)
      → Inv id taken left (fill o id seq at value)
  unfolding fill
  fill-Inv o id taken left seq at value inv there = elim there [
    | inl exempt ↦ rw exempt (exempt-Inv _ id taken left _ (counted-Inv o id taken left inv))
    | inr waiting ↦
        either_branch (Inv id taken left) (seq == 0) _ _
          (exempt-Inv _ id taken left _ (counted-Inv o id taken left inv))
          (rw (no_fault o seq inv.faultless)
            (place-Inv _ id taken left seq _ (counted-Inv o id taken left inv) waiting))
  ]

  pub fill_other-Inv :
      (o : Orderer A) (other id : AccountId) (taken left : List Seq) (seq at : ℕ) (value : A)
      → other ≢ id
      → Inv id taken left o
      → Inv id taken left (fill o other seq at value)
  unfolding fill
  fill_other-Inv o other id taken left seq at value away inv =
      either_branch (Inv id taken left) (seq == 0) _ _
        (enrolled_other-Inv _ other id taken left _ away
          (record { faultless = inv.faultless; waits = inv.waits }))
        (enrolled_other-Inv _ other id taken left _ away
          (record { faultless = inv.faultless; waits = inv.waits }))
