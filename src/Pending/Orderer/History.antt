-- ===== src/Pending/Orderer/History.antt =====
-- pending/src/orderer.rs: one lane, over any sequence of commands, completions and releases of all lanes.
use my_ledger.Common.{
  length, ◌+◌, ◌<◌, ◌^◌, ℕ, ◌≡◌, ◌≢◌, refl, arith, List, [], ◌∷◌, some, ◌++◌, is_some, push_back,
  ◌⊎◌, inl, true,
}
use my_ledger.Common.Map.{lookup}
use my_ledger.Base.Ids.{AccountId, Seq, unordered}
use my_ledger.Pending.Orderer.{Orderer, Left, orderer_new, lane_of, expect, fill, pop_ready}
use my_ledger.Pending.Orderer.Seqs.{seqs_from, Follows}
use my_ledger.Pending.Orderer.Turns.{After, place_left, turns-After}
use my_ledger.Pending.Orderer.Given.{Given, pop_ready-Given}
use my_ledger.Pending.Orderer.Values.{
  Came, Kept, Places-empty, expect-Kept, expect_other-Kept, fill-Kept, fill_other-Kept,
}
use my_ledger.Pending.Orderer.Waits.{
  Waits, Inv, expect-Inv, expect_other-Inv, fill-Inv, fill_other-Inv,
}

module _ {ℓ} {A : Type ℓ} where
  -- What an orderer without the fault can come to, with the seqs a lane has reserved, those that have
  -- left it, and the replies that came for it. Nothing is asked of the other lanes.
  pub data Run (id : AccountId) : Orderer A → List Seq → List Seq → List (Seq × A) → Type ℓ where
    start : Run id (orderer_new 0) [] [] []
    expects :
        {o : Orderer A} {taken left : List Seq} {replies : List (Seq × A)} (seq : Seq)
        → Run id o taken left replies
        → seq ≢ unordered
        → seq + 1 < 2 ^ 64
        → Follows taken left seq
        → Run id (expect o id seq) (push_back taken seq) left replies
    expects_other :
        {o : Orderer A} {taken left : List Seq} {replies : List (Seq × A)} (other : AccountId)
        (seq : Seq)
        → Run id o taken left replies
        → other ≢ id
        → Run id (expect o other seq) taken left replies
    fills :
        {o : Orderer A} {taken left : List Seq} {replies : List (Seq × A)} (seq : Seq) (at : ℕ)
        (value : A)
        → Run id o taken left replies
        → (seq ≡ unordered) ⊎ (is_some (lookup seq (lane_of o id).places) ≡ true)
        → Run id (fill o id seq at value) taken left ((seq, value) ∷ replies)
    fills_other :
        {o : Orderer A} {taken left : List Seq} {replies : List (Seq × A)} (other : AccountId)
        (seq : Seq) (at : ℕ) (value : A)
        → Run id o taken left replies
        → other ≢ id
        → Run id (fill o other seq at value) taken left replies
    pops :
        {o : Orderer A} {taken left : List Seq} {replies : List (Seq × A)} (now : ℕ)
        → Run id o taken left replies
        → Run id (pop_ready o now).0 taken (left ++ place_left id (pop_ready o now).1) replies

  Run-Inv :
      (id : AccountId) (o : Orderer A) (taken left : List Seq) (replies : List (Seq × A))
      → Run id o taken left replies
      → Inv id taken left o
  unfolding lookup seqs_from pop_ready After
  Run-Inv id _ _ _ _ start = record {
    faultless = refl;
    waits = record {
      count = 0;
      is_run = record { places_lem = λ seq. ground arith; unswapped = refl; ordered = inl refl };
      splits = refl;
    };
  }
  Run-Inv id _ _ left replies (expects {o} {taken} seq run nonzero fits follows) =
      expect-Inv o id taken left seq (Run-Inv id o taken left replies run) nonzero fits follows
  Run-Inv id _ taken left replies (expects_other {o} other seq run away) =
      expect_other-Inv o other id taken left seq away (Run-Inv id o taken left replies run)
  Run-Inv id _ _ _ _ (fills {o} {taken} {left} {replies} seq at value run there) =
      fill-Inv o id taken left seq at value (Run-Inv id o taken left replies run) there
  Run-Inv id _ taken left replies (fills_other {o} other seq at value run away) =
      fill_other-Inv o other id taken left seq at value away (Run-Inv id o taken left replies run)
  Run-Inv id _ _ _ replies (pops {o} {taken} {left} now run) =
      turns-After (length o.rotation) o id taken left now (Run-Inv id o taken left replies run)

  Run-Kept :
      (id : AccountId) (o : Orderer A) (taken left : List Seq) (replies : List (Seq × A))
      → Run id o taken left replies
      → Kept id replies o
  unfolding Given lookup
  Run-Kept id _ _ _ _ start = Places-empty []
  Run-Kept id _ _ left replies (expects {o} {taken} seq run nonzero fits follows) =
      expect-Kept o id replies seq (Run-Kept id o taken left replies run)
  Run-Kept id _ taken left replies (expects_other {o} other seq run away) =
      expect_other-Kept o other id replies seq away (Run-Kept id o taken left replies run)
  Run-Kept id _ _ _ _ (fills {o} {taken} {left} {replies} seq at value run there) =
      let inv = Run-Inv id o taken left replies run in
      fill-Kept o id replies seq at value inv.faultless inv.waits.is_run.unswapped
        (Run-Kept id o taken left replies run)
  Run-Kept id _ taken left replies (fills_other {o} other seq at value run away) =
      fill_other-Kept o other id replies seq at value away (Run-Kept id o taken left replies run)
  Run-Kept id _ _ _ replies (pops {o} {taken} {left} now run) =
      (pop_ready-Given o id replies now (Run-Kept id o taken left replies run)).0

  -- For a lane of an orderer without the fault, whose seqs are sent to it in order or start afresh where nothing of it waits, after any
  -- commands, completions and releases of this lane and the others: the places that have left are the
  -- first of those that were reserved, in the same order, and the places the lane still keeps are the
  -- rest of them, the consecutive seqs from its next one; and what a release hands out for a place of the
  -- lane is a reply that came for that seq.
  pub Run-Waits :
      (id : AccountId) (o : Orderer A) (taken left : List Seq) (replies : List (Seq × A))
      → Run id o taken left replies
      → Waits taken left (lane_of o id)
        × ((now : ℕ) (reply : Left A)
            → (pop_ready o now).1 ≡ some reply
            → reply.lane ≡ id
            → reply.seq ≢ unordered
            → Came reply.seq reply.held.value replies)
  unfolding Given
  Run-Waits id o taken left replies run = (
    (Run-Inv id o taken left replies run).waits,
    λ now. (pop_ready-Given o id replies now (Run-Kept id o taken left replies run)).1,
  )
