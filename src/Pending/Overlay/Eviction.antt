-- ===== src/Pending/Overlay/Eviction.antt =====
-- Housekeeping of the overlay: what may go, and how much of it goes in one round.
use my_ledger.Common.{ℕ, ◌+◌, ◌≤◌, ◌<◌, ◌≡◌, ◌≢◌, refl, true, some, [], ◌∷◌, arith}
use my_ledger.Common.Map.{Map, lookup}
use my_ledger.Common.Int.{pos}
use my_ledger.Base.Ids.{TxId}
use my_ledger.Pending.Overlay.{
  HoldOverlay, Hold, Entry, decided, removed, pinned_of, maintain, retain, evicts, count_entries,
}
use my_ledger.Pending.Overlay.Entries.{is_needed, lookup-retain}

retain_count :
    (budget applied evicted : ℕ) (m : Map Entry)
    → evicted ≤ budget
    → (count_entries (retain budget applied evicted m).0 + (retain budget applied evicted m).1
        ≡ count_entries m + evicted)
      × ((retain budget applied evicted m).1 ≤ budget)
unfolding retain count_entries evicts
retain_count budget applied evicted [] h = (refl, h)
retain_count budget applied evicted ((hold, entry) ∷ m) h =
    ground
      (arith, retain_count budget applied evicted m, retain_count budget applied (evicted + 1) m)

-- What somebody still relies on, once the engine has applied so many batches: an entry a request in flight
-- has pinned, a removal whose batch is not applied yet, a hold with an uncommitted reservation, and a hold
-- that a decision has resolved.
pub data IsNeeded (applied : ℕ) : Entry → Type 0 where
  pinned : (entry : Entry) → 0 < pinned_of entry → IsNeeded applied entry
  not_applied :
      (pins safe_after : ℕ) → applied < safe_after → IsNeeded applied (removed pins safe_after)
  reserved : (h : Hold) → h.reserved ≢ pos 0 → IsNeeded applied (decided h)
  resolved : (h : Hold) → h.resolved ≡ true → IsNeeded applied (decided h)

IsNeeded-kept :
    (applied : ℕ) (entry : Entry) → IsNeeded applied entry → is_needed applied entry ≡ true
IsNeeded-kept applied entry (pinned _ h) = ground arith
IsNeeded-kept applied _ (not_applied pins safe_after h) = ground arith
IsNeeded-kept applied _ (reserved h some_left) = ground (arith, some_left)
IsNeeded-kept applied _ (resolved h e) = ground arith

-- One round of housekeeping keeps, unchanged, every entry that a request in flight has pinned, that
-- carries an uncommitted reservation or a resolution, or that marks a removal which the engine has not
-- applied yet; it drops as many entries as it says, and no more than one round's budget.
pub maintain-keeps_needed :
    (o : HoldOverlay) (applied : ℕ) (hold : TxId) (entry : Entry)
    → lookup hold o.entries ≡ some entry
    → IsNeeded applied entry
    → let (o', evicted) = maintain o applied in
      (lookup hold o'.entries ≡ some entry)
      × (count_entries o'.entries + evicted ≡ count_entries o.entries)
      × (evicted ≤ o.eviction_per_round)
unfolding maintain
maintain-keeps_needed o applied hold entry h needed = ground (
  arith,
  lookup-retain o.eviction_per_round applied 0 hold entry o.entries
      (IsNeeded-kept applied entry needed) h,
  retain_count o.eviction_per_round applied 0 o.entries,
)
