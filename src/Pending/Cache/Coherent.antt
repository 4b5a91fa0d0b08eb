-- ===== src/Pending/Cache/Coherent.antt =====
-- pending/src/cache.rs: the blocks that the slots of the cache hold.
use my_ledger.Common.{
  ℕ, ◌+◌, ◌<◌, ◌≤◌, ◌≡◌, ◌≢◌, refl, sym, subst, ◌∙◌, arith, Option, none, some, List, [], ◌∷◌, ◌==◌,
  leb, length, length-append, get_or, set, length-set, get_or-set_self, get_or-set_ne,
  length-replicate, is_some, All, All-append, Bool-cases, inl, inr, either_branch,
}
use my_ledger.Pending.Store.{ObjectId, Block, zeroed}
use my_ledger.Pending.Cache.{
  Cached, free_slot, take_slot, take_from_cache, keep_in, keep_evicting, keep, cached_new,
}
use my_ledger.Pending.Keyed.{Key, at_key}
use my_ledger.Pending.Cache.Slots.{
  All-imp, All-and, All-put_key, at_key-All, All-free_slot, length-read_again, All-read_again,
}

-- Every held block is in a slot of its own below the count of the slots in use, and is the content's.
pub record IsCoherent (content : Key → Option Block) {S : Type 0} (c : Cached S) : Type 0 where
  pub roomy : length c.slots ≡ c.blocks
  pub fits : length c.order ≤ c.blocks
  pub bounded : All (λ slot. slot < length c.order) c.order
  pub claimed : All (λ e. e.1 < length c.order) c.held
  pub coherent : All (λ e. content e.0 ≡ some (get_or c.slots e.1 zeroed)) c.held

module _ (content : Key → Option Block) {S : Type 0} where
  pub cached_new-IsCoherent :
      (inner : S) (blocks : ℕ) → IsCoherent content (cached_new inner blocks)
  unfolding cached_new
  cached_new-IsCoherent inner blocks = record {
    roomy = length-replicate blocks zeroed;
    fits = omega arith;
    bounded = tt;
    claimed = tt;
    coherent = tt;
  }

  -- What is taken from the cache is the content of the key.
  pub take_from_cache-content :
      (c : Cached S) (object : ObjectId) (offset : ℕ) (block : Block)
      → IsCoherent content c
      → (take_from_cache c object offset).1 ≡ some block
      → content (object, offset) ≡ some block
  unfolding take_from_cache
  take_from_cache-content c object offset block ok e = found (at_key (object, offset) c.held) refl e
    where
      found :
          (slot : Option ℕ)
          → at_key (object, offset) c.held ≡ slot
          → (take_slot c slot).1 ≡ some block
          → content (object, offset) ≡ some block
      found none here taken = absurd (cc taken)
      found (some slot) here taken =
          at_key-All (λ e. content e.0 ≡ some (get_or c.slots e.1 zeroed)) (object, offset) slot
            c.held ok.coherent here
          ∙ taken

  pub take_from_cache-IsCoherent :
      (c : Cached S) (object : ObjectId) (offset : ℕ)
      → IsCoherent content c
      → IsCoherent content (take_from_cache c object offset).0
  unfolding take_from_cache
  take_from_cache-IsCoherent c object offset ok = taken (at_key (object, offset) c.held)
    where
      taken : (found : Option ℕ) → IsCoherent content (take_slot c found).0
      taken none = ok
      taken (some slot) = record {
        roomy = ok.roomy;
        fits = rw (length-read_again slot c.order) ok.fits;
        bounded =
            rw (length-read_again slot c.order)
              (All-read_again (λ s. s < length c.order) slot c.order ok.bounded);
        claimed = rw (length-read_again slot c.order) ok.claimed;
        coherent = ok.coherent;
      }

  -- What a cache with a slot to fill knows of the keys it holds.
  Fits : Cached S → ℕ → Key × ℕ → Type 0
  Fits c slot e =
      (e.1 < length c.order + 1) × (content e.0 ≡ some (get_or c.slots e.1 zeroed)) × (e.1 ≢ slot)

  -- A slot that no key claims takes a new block.
  keep_in-IsCoherent :
      (c : Cached S) (key : Key) (slot : ℕ) (block : Block)
      → length c.slots ≡ c.blocks
      → length c.order < c.blocks
      → slot ≤ length c.order
      → All (λ s. s < length c.order + 1) c.order
      → All (Fits c slot) c.held
      → content key ≡ some block
      → IsCoherent content (keep_in c key slot block)
  unfolding Fits
  keep_in-IsCoherent c key slot block roomy room below bounded apart is = record {
    roomy = length-set c.slots slot block ∙ roomy;
    fits = rw (length-append c.order (slot ∷ [])) (omega arith);
    bounded =
        rw (length-append c.order (slot ∷ []))
          (All-append (λ s. s < length c.order + 1) c.order (slot ∷ []) bounded (omega arith, tt));
    claimed = rw (length-append c.order (slot ∷ [])) (
        All-put_key (λ e. e.1 < length c.order + 1) key slot c.held (omega arith)
          (All-imp (Fits c slot) (λ e. e.1 < length c.order + 1) c.held (λ e fits. fits.0) apart));
    coherent =
        All-put_key (λ e. content e.0 ≡ some (get_or (set c.slots slot block) e.1 zeroed)) key slot
          c.held (rw (get_or-set_self c.slots slot block zeroed (omega arith)) is)
          (All-imp (Fits c slot)
            (λ e. content e.0 ≡ some (get_or (set c.slots slot block) e.1 zeroed)) c.held
            (λ e fits.
              rw (get_or-set_ne c.slots slot e.1 block zeroed (λ same. fits.2 (sym same))) fits.1)
            apart);
  }

  keep_evicting-IsCoherent :
      (c : Cached S) (key : Key) (order : List ℕ) (block : Block)
      → c.order ≡ order
      → IsCoherent content c
      → content key ≡ some block
      → IsCoherent content (keep_evicting c key order block)
  unfolding Fits
  keep_evicting-IsCoherent c key [] block is_order ok is = ok
  keep_evicting-IsCoherent c key (oldest ∷ rest) block is_order ok is =
      keep_in-IsCoherent (record c { held = free_slot oldest c.held; order = rest }) key oldest
        block ok.roomy (omega (arith, count, ok.fits)) (omega (arith, bounds.0)) bounds.1 held is
    where
      count : length c.order ≡ length rest + 1
      count = rw is_order (omega arith)

      bounds : All (λ s. s < length rest + 1) (oldest ∷ rest)
      bounds =
          subst (λ n. All (λ s. s < n) (oldest ∷ rest)) count
            (subst (λ order. All (λ s. s < length c.order) order) is_order ok.bounded)

      held :
          All
            (λ e.
              (e.1 < length rest + 1)
              × (content e.0 ≡ some (get_or c.slots e.1 zeroed))
              × (e.1 ≢ oldest))
            (free_slot oldest c.held)
      held =
          All-imp
            (λ e.
              ((e.1 < length c.order) × (content e.0 ≡ some (get_or c.slots e.1 zeroed)))
              × (e.1 ≢ oldest))
            (λ e.
              (e.1 < length rest + 1)
              × (content e.0 ≡ some (get_or c.slots e.1 zeroed))
              × (e.1 ≢ oldest))
            (free_slot oldest c.held)
            (λ e facts. (omega (arith, facts.0.0, count), facts.0.1, facts.1))
            (All-free_slot
              (λ e. (e.1 < length c.order) × (content e.0 ≡ some (get_or c.slots e.1 zeroed)))
              oldest c.held
              (All-and (λ e. e.1 < length c.order)
                (λ e. content e.0 ≡ some (get_or c.slots e.1 zeroed)) c.held ok.claimed
                ok.coherent))

  pub keep-IsCoherent :
      (c : Cached S) (object : ObjectId) (offset : ℕ) (block : Block)
      → IsCoherent content c
      → content (object, offset) ≡ some block
      → IsCoherent content (keep c object offset block)
  unfolding keep Fits
  keep-IsCoherent c object offset block ok is =
      either_branch (IsCoherent content) (c.blocks == 0) _ _ ok (
        either_branch (IsCoherent content) (is_some (at_key (object, offset) c.held)) _ _ ok
          (elim (Bool-cases (leb c.blocks (length c.order))) [
            | inl full ↦
                rw full (keep_evicting-IsCoherent c (object, offset) c.order block refl ok is)
            | inr room ↦ rw room (
                keep_in-IsCoherent c (object, offset) (length c.order) block ok.roomy
                  (ground (arith, room)) (omega arith)
                  (All-imp (λ s. s < length c.order) (λ s. s < length c.order + 1) c.order
                    (λ s lt. omega (arith, lt)) ok.bounded)
                  (All-imp
                    (λ e. (e.1 < length c.order) × (content e.0 ≡ some (get_or c.slots e.1 zeroed)))
                    (Fits c (length c.order)) c.held
                    (λ e both. (omega (arith, both.0), both.1, λ same. omega (arith, both.0, same)))
                    (All-and (λ e. e.1 < length c.order)
                      (λ e. content e.0 ≡ some (get_or c.slots e.1 zeroed)) c.held ok.claimed
                      ok.coherent))
                  is)
          ]))
