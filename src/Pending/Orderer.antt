-- ===== src/Pending/Orderer.antt =====
-- pending/src/orderer.rs: the replies of the engine, put back in the order of their lanes.
pub mod Due
pub mod Given
pub mod History
pub mod Order
pub mod Report
pub mod Seqs
pub mod Turns
pub mod Values
pub mod Waits
use my_ledger.Common.{
  ℕ, zero, suc, ◌+◌, ◌-◌, ◌%◌, ◌^◌, min, max, Bool, true, false, not, ◌&&◌, Option, none, some,
  List, [], ◌∷◌, ltb, leb, ◌==◌, if◌then◌else◌, inc_word, dec_word, length, push_back, is_some,
}
use my_ledger.Common.Map.{Map, lookup, insert, remove}
use my_ledger.Base.Ids.{AccountId, Seq, unordered}

pub record Held {ℓ} (A : Type ℓ) : Type ℓ where
  pub ready_at : ℕ
  pub blocked : Bool
  pub value : A

-- A place is `none` until the work behind it has finished.
pub record Lane {ℓ} (A : Type ℓ) : Type ℓ where
  pub next : Seq
  pub places : Map (Option (Held A))
  pub exempt : List (Held A)
  pub swapped : Map Seq
  pub in_rotation : Bool

pub record Orderer {ℓ} (A : Type ℓ) : Type ℓ where
  pub lanes : Map (Lane A)
  pub rotation : List AccountId
  pub held : ℕ
  pub deepest_lane : ℕ
  pub violate_every : ℕ
  pub pushes : ℕ
  pub released : ℕ
  pub order_nanos : ℕ
  pub order_worst_nanos : ℕ
  pub delivery_nanos : ℕ
  pub order_held : ℕ

-- Which reply left.
pub record Left {ℓ} (A : Type ℓ) : Type ℓ where
  pub lane : AccountId
  pub seq : Seq
  pub held : Held A

abbrev pub is_empty {ℓ} : {A : Type ℓ} → List A → Bool
is_empty [] = true
is_empty (_ ∷ _) = false

module _ {ℓ} {A : Type ℓ} where
  abbrev pub orderer_new : ℕ → Orderer A
  orderer_new violate_every = record {
    lanes = [];
    rotation = [];
    held = 0;
    deepest_lane = 0;
    violate_every = violate_every;
    pushes = 0;
    released = 0;
    order_nanos = 0;
    order_worst_nanos = 0;
    delivery_nanos = 0;
    order_held = 0;
  }

  abbrev pub lane_new : Lane A
  lane_new = record { next = 0; places = []; exempt = []; swapped = []; in_rotation = false }

  abbrev pub lane_or_new : Option (Lane A) → Lane A
  lane_or_new none = lane_new
  lane_or_new (some lane) = lane

  -- `entry(lane).or_insert_with(Lane::new)`.
  abbrev pub lane_of : Orderer A → AccountId → Lane A
  lane_of o id = lane_or_new (lookup id o.lanes)

  -- A lane that was touched is written back, and enters the rotation where it is not in it.
  abbrev pub enrolled : Orderer A → AccountId → Lane A → Orderer A
  enrolled o id lane =
      if lane.in_rotation then record o { lanes = insert id lane o.lanes } else record o {
        lanes = insert id (record lane { in_rotation = true }) o.lanes;
        rotation = push_back o.rotation id;
      }

  abbrev pub reserved : Lane A → Seq → Lane A
  reserved lane seq = record lane {
    next = if is_empty lane.places then seq else lane.next;
    places = insert seq none lane.places;
  }

  unfoldable pub expect : Orderer A → AccountId → Seq → Orderer A
  expect o id seq = if seq == unordered then o else enrolled o id (reserved (lane_of o id) seq)

  -- The fault: a reply that claims the place its lane waits for, and leaves its own place to that one.
  abbrev pub stolen : Lane A → Seq → Held A → Option (Option (Held A)) → Lane A
  stolen lane seq held (some (some other)) = record lane {
    places = insert seq (some other) (insert lane.next (some held) lane.places);
  }
  stolen lane seq held _ = record lane {
    places = insert seq none (insert lane.next (some held) lane.places);
    swapped = insert lane.next seq lane.swapped;
  }

  abbrev pub placed_by : Lane A → Seq → Held A → Bool → Option Seq → Lane A
  placed_by lane seq held violate (some at) = record lane {
    places = insert at (some held) lane.places;
    swapped = remove seq lane.swapped;
  }
  placed_by lane seq held violate none =
      if violate && not (lane.next == seq) && is_some (lookup lane.next lane.places)
      then stolen lane seq held (lookup lane.next lane.places)
      else record lane { places = insert seq (some held) lane.places }

  unfoldable pub filled_lane : Lane A → Seq → Held A → Bool → Lane A
  filled_lane lane seq held violate = placed_by lane seq held violate (lookup seq lane.swapped)

  -- `u32::is_multiple_of`.
  abbrev pub violates : Orderer A → Seq → Bool
  violates o seq =
      ltb 0 o.violate_every && inc_word 32 o.pushes % o.violate_every == 0 && not (seq == unordered)

  abbrev pub fill_exempt : Orderer A → AccountId → Held A → Orderer A
  fill_exempt o id held =
      let lane = lane_of o id in
      enrolled (record o { held = inc_word 64 o.held }) id
        (record lane { exempt = push_back lane.exempt held })

  abbrev pub fill_place : Orderer A → AccountId → Seq → Held A → Bool → Orderer A
  fill_place o id seq held violate =
      let lane = filled_lane (lane_of o id) seq held violate in
      enrolled
        (record o {
          held = inc_word 64 o.held;
          deepest_lane = max o.deepest_lane (length lane.places + length lane.exempt);
          order_held = if held.blocked then inc_word 64 o.order_held else o.order_held;
        })
        id lane

  unfoldable pub fill : Orderer A → AccountId → Seq → ℕ → A → Orderer A
  fill o id seq ready_at value =
      let violate = violates o seq in
      let counted = record o { pushes = inc_word 32 o.pushes } in
      let held : Held A = record {
        ready_at = ready_at;
        blocked = not (seq == unordered) && not (seq == (lane_of o id).next);
        value = value;
      } in
      if seq == unordered
      then fill_exempt counted id held
      else fill_place counted id seq held violate

  abbrev pub is_filled : Option (Option (Held A)) → Bool
  is_filled (some (some _)) = true
  is_filled _ = false

  -- Which seq the lane may release now.
  unfoldable pub release_seq : Lane A → Option Seq
  release_seq lane =
      if not (is_empty lane.exempt)
      then some unordered
      else if is_filled (lookup lane.next lane.places)
      then some lane.next
      else none

  abbrev pub front : List (Held A) → Option (Held A)
  front [] = none
  front (held ∷ _) = some held

  abbrev pub flat : Option (Option (Held A)) → Option (Held A)
  flat none = none
  flat (some held) = held

  unfoldable pub head_of : Lane A → Seq → Option (Held A)
  head_of lane seq = if seq == unordered then front lane.exempt else flat (lookup seq lane.places)

  abbrev pub tail : List (Held A) → List (Held A)
  tail [] = []
  tail (_ ∷ rest) = rest

  -- The lane once the reply of a seq has left it.
  unfoldable pub left_lane : Lane A → Seq → Lane A
  left_lane lane seq =
      if seq == unordered
      then record lane { exempt = tail lane.exempt }
      else record lane { places = remove seq lane.places; next = inc_word 64 seq }

  abbrev pub note_wait : Orderer A → Held A → ℕ → Orderer A
  note_wait o held now =
      let waited = now - held.ready_at in
      if held.blocked
      then record o {
        order_nanos = (o.order_nanos + waited) % 2 ^ 64;
        order_worst_nanos = max o.order_worst_nanos waited;
      }
      else record o { delivery_nanos = (o.delivery_nanos + waited) % 2 ^ 64 }

  abbrev pub is_idle : Lane A → Bool
  is_idle lane = is_empty lane.places && is_empty lane.exempt && is_empty lane.swapped

  -- The rotation was cut at its front before.
  abbrev pub take_out : Orderer A → AccountId → Lane A → Seq → Held A → ℕ → Orderer A
  take_out o id lane seq held now =
      let after = left_lane lane seq in
      let noted =
        note_wait (record o { held = dec_word 64 o.held; released = inc_word 64 o.released }) held
          now in
      if is_idle after
      then record noted { lanes = insert id (record after { in_rotation = false }) noted.lanes }
      else record noted {
        lanes = insert id after noted.lanes;
        rotation = push_back noted.rotation id;
      }

  abbrev pub to_back : Orderer A → AccountId → Orderer A
  to_back o id = record o { rotation = push_back o.rotation id }

  abbrev pub due :
      Orderer A → AccountId → Lane A → Seq → Option (Held A) → ℕ → Orderer A × Option (Left A)
  due o id lane seq none now = (to_back o id, none)
  due o id lane seq (some held) now =
      if leb held.ready_at now
      then (take_out o id lane seq held now, some (record { lane = id; seq = seq; held = held }))
      else (to_back o id, none)

  abbrev pub by_seq : Orderer A → AccountId → Lane A → Option Seq → ℕ → Orderer A × Option (Left A)
  by_seq o id lane none now = (to_back o id, none)
  by_seq o id lane (some seq) now = due o id lane seq (head_of lane seq) now

  abbrev pub by_lane : Orderer A → AccountId → Option (Lane A) → ℕ → Orderer A × Option (Left A)
  by_lane o id none now = (o, none)
  by_lane o id (some lane) now = by_seq o id lane (release_seq lane) now

  -- The lane at the front of the rotation has its turn.
  abbrev pub turn : Orderer A → List AccountId → ℕ → Orderer A × Option (Left A)
  turn o [] now = (o, none)
  turn o (id ∷ rest) now =
      let cut = record o { rotation = rest } in by_lane cut id (lookup id cut.lanes) now

  unfoldable pub turns : ℕ → Orderer A → ℕ → Orderer A × Option (Left A)
  turns zero o now = (o, none)
  turns (suc n) o now =
      let one = turn o o.rotation now in
      let later = turns n one.0 now in if is_some one.1 then one else later

  -- `pop_ready`, with the lane and the seq of what it returns.
  unfoldable pub pop_ready : Orderer A → ℕ → Orderer A × Option (Left A)
  pop_ready o now = turns (length o.rotation) o now
