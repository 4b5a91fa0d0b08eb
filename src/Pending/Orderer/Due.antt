-- ===== src/Pending/Orderer/Due.antt =====
-- pending/src/orderer.rs: `next_due` says when `pop_ready` next has something to release.
use my_ledger.Common.{
  ℕ, ◌≡◌, refl, sym, ap, ◌∙◌, arith, Bool, true, false, ◌||◌, Option, none, some, List, [], ◌∷◌,
  ◌++◌, append-nil, append_assoc, is_some, leb, length, if◌then◌else◌, Bool-cases, inl, inr,
}
use my_ledger.Common.Map.{lookup}
use my_ledger.Base.Ids.{AccountId, Seq}
use my_ledger.Pending.Orderer.{
  Orderer, Lane, Held, Left, release_seq, head_of, due, by_seq, by_lane, turns, pop_ready, to_back,
}
use my_ledger.Pending.Orderer.Report.{earliest, due_at, next_of, next_in, due_among, next_due}

-- Whether a time has come.
unfoldable pub due_by : Option ℕ → ℕ → Bool
due_by none now = false
due_by (some at) now = leb at now

due_by-earliest :
    (a b : Option ℕ) (now : ℕ) → due_by (earliest a b) now ≡ (due_by a now || due_by b now)
unfolding due_by
due_by-earliest none b now = refl
due_by-earliest (some a) none now = ground arith
due_by-earliest (some a) (some b) now = ground arith

clash : {a b : Bool} → a ≡ false → a ≡ b → b ≡ true → ⊥
clash e same f = cc (e, same, f)

module _ {ℓ} {A : Type ℓ} where
  due-due_by :
      (o : Orderer A) (id : AccountId) (lane : Lane A) (seq : Seq) (head : Option (Held A))
      (now : ℕ)
      → is_some (due o id lane seq head now).1 ≡ due_by (due_at head) now
  unfolding due_by
  due-due_by o id lane seq none now = refl
  due-due_by o id lane seq (some held) now = elim (Bool-cases (leb held.ready_at now)) [
    | inl e ↦ rw e refl
    | inr e ↦ rw e refl
  ]

  by_lane-due_by :
      (o : Orderer A) (id : AccountId) (found : Option (Lane A)) (now : ℕ)
      → is_some (by_lane o id found now).1 ≡ due_by (next_in found) now
  unfolding due_by
  by_lane-due_by o id none now = refl
  by_lane-due_by o id (some lane) now = by_seq-due_by (release_seq lane)
    where
      by_seq-due_by :
          (seq : Option Seq) → is_some (by_seq o id lane seq now).1 ≡ due_by (next_of lane seq) now
      by_seq-due_by none = refl
      by_seq-due_by (some seq) = due-due_by o id lane seq (head_of lane seq) now

  -- A turn without a release leaves the lanes, and at most puts its own back into the rotation.
  record Skips (o : Orderer A) (result : Orderer A × Option (Left A)) : Type ℓ where
    lanes : result.0.lanes ≡ o.lanes
    back : List AccountId
    rotation : result.0.rotation ≡ o.rotation ++ back

  by_lane-Skips :
      (o : Orderer A) (id : AccountId) (found : Option (Lane A)) (now : ℕ)
      → is_some (by_lane o id found now).1 ≡ false
      → Skips o (by_lane o id found now)
  unfolding due_by
  by_lane-Skips o id none now e = record {
    lanes = refl;
    back = [];
    rotation = sym (append-nil o.rotation);
  }
  by_lane-Skips o id (some lane) now e = by_seq-Skips (release_seq lane) e
    where
      back_again : Skips o (to_back o id, none)
      back_again = record { lanes = refl; back = id ∷ []; rotation = refl }

      due-Skips :
          (seq : Seq) (head : Option (Held A))
          → is_some (due o id lane seq head now).1 ≡ false
          → Skips o (due o id lane seq head now)
      due-Skips seq none e = back_again
      due-Skips seq (some held) e = elim (Bool-cases (leb held.ready_at now)) [
        | inl ready ↦ absurd (clash e (due-due_by o id lane seq (some held) now) ready)
        | inr not_yet ↦ rw not_yet back_again
      ]

      by_seq-Skips :
          (seq : Option Seq)
          → is_some (by_seq o id lane seq now).1 ≡ false
          → Skips o (by_seq o id lane seq now)
      by_seq-Skips none e = back_again
      by_seq-Skips (some seq) e = due-Skips seq (head_of lane seq) e

  choose :
      (first later : Orderer A × Option (Left A))
      → is_some (if is_some first.1 then first else later).1 ≡ (is_some first.1 || is_some later.1)
  choose first later = elim (Bool-cases (is_some first.1)) [ inl e ↦ rw e e | inr e ↦ rw e refl ]

  turns-due_by :
      (ahead back : List AccountId) (o : Orderer A) (now : ℕ)
      → o.rotation ≡ ahead ++ back
      → is_some (turns (length ahead) o now).1 ≡ due_by (due_among o.lanes ahead) now
  unfolding turns due_among due_by
  turns-due_by [] back o now e = refl
  turns-due_by (id ∷ ahead) back o now e = rw e (
      choose first (turns (length ahead) first.0 now) ∙ elim (Bool-cases (is_some first.1)) [
        | inl ready ↦
            ground (arith, ready, found, due_by-earliest next (due_among o.lanes ahead) now)
        | inr none_yet ↦
            let skips : Skips cut first = by_lane-Skips cut id (lookup id o.lanes) now none_yet in
            ground (
              arith,
              none_yet,
              found,
              due_by-earliest next (due_among o.lanes ahead) now,
              turns-due_by ahead (back ++ skips.back) first.0 now
                    (skips.rotation ∙ append_assoc ahead back skips.back)
                  ∙ ap (λ lanes. due_by (due_among lanes ahead) now) skips.lanes,
            )
      ])
    where
      cut : Orderer A
      cut = record o { rotation = ahead ++ back }

      first : Orderer A × Option (Left A)
      first = by_lane cut id (lookup id o.lanes) now

      next : Option ℕ
      next = next_in (lookup id o.lanes)

      found : is_some first.1 ≡ due_by next now
      found = by_lane-due_by cut id (lookup id o.lanes) now

  -- A release finds a reply exactly where the earliest time that `next_due` names has come: jumping the
  -- clock to that time releases one, and before it there is none to release.
  pub pop_ready-next_due :
      (o : Orderer A) (now : ℕ) → is_some (pop_ready o now).1 ≡ due_by (next_due o) now
  unfolding pop_ready next_due
  pop_ready-next_due o now = turns-due_by o.rotation [] o now (sym (append-nil o.rotation))
