-- ===== src/Pending/Overlay/Entries.antt =====
-- What each operation of the overlay does to the entry of every hold.
use my_ledger.Common.{
  ℕ, ◌+◌, ◌≡◌, not, ◌||◌, ◌&&◌, ltb, Bool-cases, Bool, true, false, Option, none, some, [], ◌∷◌,
  ◌==◌, if◌then◌else◌, arith, inl, inr, Option-cases,
}
use my_ledger.Common.Map.{Map, lookup, lookup-insert}
use my_ledger.Base.Ids.{TxId}
use my_ledger.Pending.Overlay.{
  HoldOverlay, Entry, keep, saw, change, pinned_of, is_idle, evicts, retain,
}

abbrev pub map_entry : (Entry → Entry) → Option Entry → Option Entry
map_entry f none = none
map_entry f (some entry) = some (f entry)

pub lookup-keep :
    (o : HoldOverlay) (hold other : TxId) (entry : Entry)
    → lookup other (keep o hold entry).entries
      ≡ (if hold == other then some entry else lookup other o.entries)
unfolding keep saw
lookup-keep o hold other entry = lookup-insert hold other entry o.entries

pub lookup-change :
    (o : HoldOverlay) (hold other : TxId) (f : Entry → Entry)
    → lookup other (change o hold f).entries
      ≡ (if hold == other then map_entry f (lookup hold o.entries) else lookup other o.entries)
unfolding change
lookup-change o hold other f = elim (Option-cases (lookup hold o.entries)) [
  | inl e ↦ rw (e, change) (ground (arith))
  | inr (entry, e) ↦ rw (e, change) (lookup-insert hold other (f entry) o.entries)
]

-- An entry that something pins, or that still says something, is never one that is dropped.
abbrev pub is_needed : ℕ → Entry → Bool
is_needed applied entry = ltb 0 (pinned_of entry) || not (is_idle applied entry)

evicts-is_needed :
    (budget applied evicted : ℕ) (entry : Entry)
    → is_needed applied entry ≡ true
    → evicts budget applied evicted entry ≡ false
unfolding evicts
evicts-is_needed budget applied evicted entry h =
    split (ltb 0 (pinned_of entry)) (is_idle applied entry) h
  where
    split :
        (pinned idle : Bool)
        → (pinned || not idle) ≡ true
        → (ltb evicted budget && not pinned && idle) ≡ false
    split pinned idle e = ground arith

pub lookup-retain :
    (budget applied evicted : ℕ) (hold : TxId) (entry : Entry) (m : Map Entry)
    → is_needed applied entry ≡ true
    → lookup hold m ≡ some entry
    → lookup hold (retain budget applied evicted m).0 ≡ some entry
unfolding retain lookup
lookup-retain budget applied evicted hold entry [] needed h = h
lookup-retain budget applied evicted hold entry ((other, e) ∷ m) needed h =
    elim (Bool-cases (other == hold)) [
      | inl same ↦ ground (arith, evicts-is_needed budget applied evicted entry needed)
      | inr differs ↦ ground (
        arith,
        lookup-retain budget applied
            (if evicts budget applied evicted e then evicted + 1 else evicted) hold entry m needed,
      )
    ]
