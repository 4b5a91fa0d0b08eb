-- ===== src/Sequencer/State/Pipeline/Slots.antt =====
-- Every slot of the pool has one holder: the free list or one request.
use my_ledger.Common.{
  ℕ, zero, suc, ◌+◌, ◌≤◌, ◌<◌, ◌%◌, ◌^◌, ◌≡◌, refl, ap, arith, List, [], ◌∷◌, some, ◌==◌,
  if◌then◌else◌, ltb, leb, ◌&&◌, length, length-set, replicate, Bool-cases, inl, inr,
}
use my_ledger.Sequencer.State.Batcher.{SlotId}
use my_ledger.Sequencer.State.Pipeline.{
  SlotPool, WorkItem, with_capacity, no_item, slots_from, in_flight, alloc, hand_out, release,
  set_item,
}

unfoldable pub count : SlotId → List SlotId → ℕ
count slot [] = 0
count slot (x ∷ xs) = let rest = count slot xs in if x == slot then suc rest else rest

unfoldable pub drop_one : SlotId → List SlotId → List SlotId
drop_one slot [] = []
drop_one slot (x ∷ xs) = let rest = drop_one slot xs in if x == slot then xs else x ∷ rest

-- A pool of `n` slots with the slots that requests hold: a request releases only a slot it holds.
pub data Reach (n : ℕ) : SlotPool → List SlotId → Type 0 where
  opens : Reach n (with_capacity n) []
  allocates :
      {p : SlotPool} {held : List SlotId} (slot : SlotId)
      → Reach n p held
      → (alloc p).1 ≡ some slot
      → Reach n (alloc p).0 (slot ∷ held)
  releases :
      {p : SlotPool} {held : List SlotId} (slot : SlotId)
      → Reach n p held
      → 0 < count slot held
      → Reach n (release p slot) (drop_one slot held)
  stores :
      {p : SlotPool} {held : List SlotId} (slot : SlotId) (item : WorkItem)
      → Reach n p held
      → Reach n (set_item p slot item) held

count-slots_from :
    (slot from n : ℕ)
    → count slot (slots_from from n) ≡ (if leb from slot && ltb slot (from + n) then 1 else 0)
unfolding count
count-slots_from slot from zero = ground arith
count-slots_from slot from (suc n) = ground (arith, count-slots_from slot (suc from) n)

count-drop_one :
    (slot other : SlotId) (xs : List SlotId)
    → 0 < count slot xs
    → count other (drop_one slot xs) + (if slot == other then 1 else 0) ≡ count other xs
unfolding count drop_one
count-drop_one slot other [] h = absurd (omega arith)
count-drop_one slot other (x ∷ xs) h = elim (Bool-cases (x == slot)) [
  | inl same ↦ ground arith
  | inr differs ↦ ground (arith, count-drop_one slot other xs (ground arith))
]

length-drop_one :
    (slot : SlotId) (xs : List SlotId)
    → 0 < count slot xs
    → length (drop_one slot xs) + 1 ≡ length xs
unfolding count drop_one
length-drop_one slot [] h = absurd (omega arith)
length-drop_one slot (x ∷ xs) h = elim (Bool-cases (x == slot)) [
  | inl same ↦ ground arith
  | inr differs ↦ ground (arith, length-drop_one slot xs (ground arith))
]

length-slots_from : (from n : ℕ) → length (slots_from from n) ≡ n
length-slots_from from zero = refl
length-slots_from from (suc n) = ap suc (length-slots_from (suc from) n)

length-replicate : (n : ℕ) → length (replicate n no_item) ≡ n
length-replicate zero = refl
length-replicate (suc n) = ap suc (length-replicate n)

record Inv (n : ℕ) (p : SlotPool) (held : List SlotId) : Type 0 where
  capacity : length p.items ≡ n
  accounted : length p.free + length held ≡ n
  once : (slot : SlotId) → count slot p.free + count slot held ≡ (if ltb slot n then 1 else 0)

hand_out-Inv :
    (n : ℕ) (p : SlotPool) (free held : List SlotId) (slot : SlotId)
    → p.free ≡ free
    → (hand_out p free).1 ≡ some slot
    → Inv n p held
    → Inv n (hand_out p free).0 (slot ∷ held)
unfolding hand_out count
hand_out-Inv n p [] held slot e h v = absurd (ground arith)
hand_out-Inv n p (x ∷ rest) held slot e h v = record {
  capacity = v.capacity;
  accounted = ground (arith, v.accounted);
  once = λ other. ground (arith, v.once other);
}

fits_in_slot : (n : ℕ) → n < 2 ^ 32 → n % 2 ^ 32 ≡ n
fits_in_slot n h = omega arith

Reach-Inv : {n : ℕ} {p : SlotPool} {held : List SlotId} → n < 2 ^ 32 → Reach n p held → Inv n p held
unfolding alloc release set_item count
Reach-Inv {n = n} fits opens = record {
  capacity = length-replicate n;
  accounted = rw (fits_in_slot n fits) (omega (arith, length-slots_from 0 n));
  once = λ slot. rw (fits_in_slot n fits) (ground (arith, count-slots_from slot 0 n));
}
Reach-Inv fits (allocates slot r h) = hand_out-Inv _ _ _ _ slot refl h (Reach-Inv fits r)
Reach-Inv fits (releases {p = p} {held = held} slot r h) = record {
  capacity = (Reach-Inv fits r).capacity;
  accounted = omega (arith, (Reach-Inv fits r).accounted, length-drop_one slot held h);
  once = λ other. ground (arith, (Reach-Inv fits r).once other, count-drop_one slot other held h);
}
Reach-Inv fits (stores {p = p} slot item r) = record {
  capacity = ground (arith, length-set p.items slot item, (Reach-Inv fits r).capacity);
  accounted = (Reach-Inv fits r).accounted;
  once = (Reach-Inv fits r).once;
}

-- For a pool of less than 2^32 slots, whatever requests do with it, no slot is ever held twice or held while it is free, every slot of
-- the pool is somewhere, and the count in flight is the number of slots held, at most the pool's size.
pub Reach-exclusive :
    (n : ℕ) (p : SlotPool) (held : List SlotId) (slot : SlotId)
    → n < 2 ^ 32
    → Reach n p held
    → (count slot p.free + count slot held ≡ (if ltb slot n then 1 else 0))
      × (in_flight p ≡ length held)
      × (in_flight p ≤ n)
unfolding in_flight
Reach-exclusive n p held slot fits r =
    let v = Reach-Inv fits r in
    (v.once slot, omega (arith, v.capacity, v.accounted), omega (arith, v.capacity, v.accounted))
