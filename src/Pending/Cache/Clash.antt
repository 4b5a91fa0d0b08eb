-- ===== src/Pending/Cache/Clash.antt =====
-- pending/src/cache.rs: a block kept after another object was dropped.
use my_ledger.Common.{
  ◌<◌, ◌≡◌, ◌≢◌, refl, sym, ap, subst, arith, Bool, true, false, none, some, [], ◌∷◌, ◌==◌, leb,
  if◌then◌else◌, length, get_or-set_self,
}
use my_ledger.Pending.Store.{Block, zeroed}
use my_ledger.Pending.Cache.{
  Cached, contains, free_object, slots_of, without_all, take_from_cache, keep, forget,
}
use my_ledger.Pending.Keyed.{Key, KeyMap, eqb_key, at_key, put_key}

at_key-put_key :
    {V : Type 0} (key other : Key) (v : V) (m : KeyMap V)
    → at_key other (put_key key v m) ≡ (if eqb_key key other then some v else at_key other m)
unfolding at_key put_key
at_key-put_key key other v [] = refl
at_key-put_key key other v ((k, old) ∷ rest) = ground (arith, at_key-put_key key other v rest)

module _ {S : Type 0} where
  -- The slot that the count of the slots in use names is given out, whoever claims it.
  take_from_cache-keep :
      (c : Cached S) (key other : Key) (block : Block)
      → length c.slots ≡ c.blocks
      → length c.order < c.blocks
      → at_key key c.held ≡ some (length c.order)
      → at_key other c.held ≡ none
      → (take_from_cache (keep c other.0 other.1 block) key.0 key.1).1 ≡ some block
  unfolding take_from_cache keep
  take_from_cache-keep c key other block roomy room here absent = rw nonzero (
      rw absent (
        rw room_left (
          rw (at_key-put_key other key (length c.order) c.held) (
            rw here (
              rw (either (eqb_key other key))
                (ap some (get_or-set_self c.slots (length c.order) block zeroed (omega arith))))))))
    where
      nonzero : (c.blocks == 0) ≡ false
      nonzero = ground (arith, room)

      room_left : leb c.blocks (length c.order) ≡ false
      room_left = ground (arith, room)

      either :
          (b : Bool)
          → (if b then some (length c.order) else some (length c.order)) ≡ some (length c.order)
      either true = refl
      either false = refl

  forgotten : Cached S → Key → Cached S
  forgotten c second = record c { held = (second, 1) ∷ []; order = 1 ∷ [] }

  forget-first :
      (c : Cached S) (first second : Key)
      → c.held ≡ (first, 0) ∷ (second, 1) ∷ []
      → c.order ≡ 0 ∷ 1 ∷ []
      → first.0 ≢ second.0
      → forget c first.0 ≡ forgotten c second
  unfolding forget free_object slots_of without_all contains forgotten
  forget-first c first second held order apart = rw held (rw order (rw same (rw other refl)))
    where
      same : (first.0 == first.0) ≡ true
      same = ground arith

      other : (second.0 == first.0) ≡ false
      other = ground (arith, apart)

  -- A cache with room holds a block of each of two objects, in the order in which it read them. The first
  -- object is dropped, as a write to it or its removal does, and a third block is kept: the block of the
  -- second object, which nobody has touched, is then answered with the bytes of the third.
  pub take_from_cache-keep-forget :
      (c : Cached S) (first second third : Key) (block : Block)
      → c.held ≡ (first, 0) ∷ (second, 1) ∷ []
      → c.order ≡ 0 ∷ 1 ∷ []
      → length c.slots ≡ c.blocks
      → 2 < c.blocks
      → first.0 ≢ second.0
      → eqb_key second third ≡ false
      → (take_from_cache (keep (forget c first.0) third.0 third.1 block) second.0 second.1).1
        ≡ some block
  unfolding at_key forgotten
  take_from_cache-keep-forget c first second third block held order roomy room apart absent =
      subst (λ d. (take_from_cache (keep d third.0 third.1 block) second.0 second.1).1 ≡ some block)
        (sym (forget-first c first second held order apart))
        (take_from_cache-keep (forgotten c second) second third block roomy (omega (arith, room))
          (rw (same second) refl) (rw absent refl))
    where
      same : (key : Key) → eqb_key key key ≡ true
      same key = ground arith
