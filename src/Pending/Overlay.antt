-- ===== src/Pending/Overlay.antt =====
-- pending/src/overlay.rs, `HoldOverlay`: what the sequencer has decided about the holds in flight. The
-- map is walked in list order where the code walks a hash table; every theorem holds for any order.
pub mod Entries
pub mod Removal
pub mod Eviction
pub mod Reservation
use my_ledger.Common.{
  ℕ, ◌+◌, ◌-◌, max, Bool, true, false, not, ◌&&◌, ◌||◌, Option, none, some, List, [], ◌∷◌, ltb, leb,
  if◌then◌else◌, inc_word, is_some,
}
use my_ledger.Common.Int.{ℤ, pos, add_i64, sub_i64, eqb_ℤ, max_ℤ}
use my_ledger.Common.Map.{Map, lookup, insert}
use my_ledger.Base.Ids.{Amount, TxId}
use my_ledger.Base.Ports.Pending.{OverlayState, no_overlay}

pub record Hold : Type 0 where
  pub pinned : ℕ
  pub committed_remaining : Amount
  pub reserved : Amount
  pub resolved : Bool

pub data Entry : Type 0 where
  -- pinned
  watched : ℕ → Entry
  missing : ℕ → Entry
  -- pinned, safe_after
  removed : ℕ → ℕ → Entry
  decided : Hold → Entry

-- `Entry::pinned`.
abbrev pub pinned_of : Entry → ℕ
pinned_of (watched pinned) = pinned
pinned_of (missing pinned) = pinned
pinned_of (removed pinned _) = pinned
pinned_of (decided hold) = hold.pinned

-- What is written through `Entry::pins`.
abbrev pub set_pins : Entry → ℕ → Entry
set_pins (watched _) n = watched n
set_pins (missing _) n = missing n
set_pins (removed _ safe_after) n = removed n safe_after
set_pins (decided hold) n = decided (record hold { pinned = n })

pub record HoldOverlay : Type 0 where
  pub entries : Map Entry
  pub soft_limit : ℕ
  pub eviction_per_round : ℕ
  pub peak : ℕ

abbrev pub new_overlay : ℕ → ℕ → HoldOverlay
new_overlay soft_limit eviction_per_round = record {
  entries = [];
  soft_limit = soft_limit;
  eviction_per_round = eviction_per_round;
  peak = 0;
}

pub data Known : Type 0 where
  nothing awaiting gone : Known
  live : Hold → Known

abbrev pub known_entry : Option Entry → Known
known_entry none = nothing
known_entry (some (watched _)) = awaiting
known_entry (some (missing _)) = gone
known_entry (some (removed _ _)) = gone
known_entry (some (decided hold)) = live hold

unfoldable pub known : HoldOverlay → TxId → Known
known o hold = known_entry (lookup hold o.entries)

abbrev is_gone : Known → Bool
is_gone gone = true
is_gone _ = false

unfoldable pub hold_is_missing : HoldOverlay → TxId → Bool
unfolding known
hold_is_missing o hold = is_gone (known o hold)

pub count_entries : Map Entry → ℕ
count_entries [] = 0
count_entries (_ ∷ m) = count_entries m + 1

-- `Peak::saw`.
pub saw : HoldOverlay → HoldOverlay
unfolding count_entries
saw o = record o { peak = max o.peak (count_entries o.entries) }

-- Every insertion goes through here.
pub keep : HoldOverlay → TxId → Entry → HoldOverlay
unfolding saw
keep o hold entry = saw (record o { entries = insert hold entry o.entries })

-- A write in place, where an entry is there.
pub change : HoldOverlay → TxId → (Entry → Entry) → HoldOverlay
change o hold f = elim (lookup hold o.entries) [
  | none ↦ o
  | some entry ↦ record o { entries = insert hold (f entry) o.entries }
]

unfoldable pub begin_lookup : HoldOverlay → TxId → HoldOverlay
begin_lookup o hold = elim (lookup hold o.entries) [
  | none ↦ keep o hold (watched 0)
  | some _ ↦ saw o
]

unfoldable pub pin : HoldOverlay → TxId → HoldOverlay
pin o hold = change o hold (λ entry. set_pins entry (inc_word 32 (pinned_of entry)))

-- `saturating_sub`, which `-` is.
unfoldable pub unpin : HoldOverlay → TxId → HoldOverlay
unpin o hold = change o hold (λ entry. set_pins entry (pinned_of entry - 1))

pub pins_at : HoldOverlay → TxId → ℕ
pins_at o hold = elim (lookup hold o.entries) [ none ↦ 0 | some entry ↦ pinned_of entry ]

abbrev pub fresh_hold : ℕ → Amount → Entry
fresh_hold pinned remaining = decided (record {
  pinned = pinned;
  committed_remaining = remaining;
  reserved = pos 0;
  resolved = false;
})

pub decide : HoldOverlay → TxId → Amount → HoldOverlay
decide o hold remaining = keep o hold (fresh_hold (pins_at o hold) remaining)

pub admit_answer : HoldOverlay → TxId → Option Amount → HoldOverlay
admit_answer o hold (some remaining) = decide o hold remaining
admit_answer o hold none = keep o hold (missing (pins_at o hold))

-- An answer is dropped where a decision has been taken since.
unfoldable pub admit_lookup : HoldOverlay → TxId → Option Amount → HoldOverlay
admit_lookup o hold remaining = elim (known o hold) [
  | live _ ↦ o
  | gone ↦ o
  | nothing ↦ admit_answer o hold remaining
  | awaiting ↦ admit_answer o hold remaining
]

unfoldable pub created : HoldOverlay → TxId → Amount → HoldOverlay
unfolding decide
created o hold amount = if is_some (lookup hold o.entries) then decide o hold amount else o

abbrev pub state_of : Known → OverlayState
state_of (live hold) = record {
  remaining = some hold.committed_remaining;
  taken = hold.reserved;
  resolved = hold.resolved;
}
state_of gone = record { remaining = some (pos 0); taken = pos 0; resolved = true }
state_of _ = no_overlay

-- `HoldOverlay::overlay`.
unfoldable pub overlay : HoldOverlay → TxId → OverlayState
unfolding known
overlay o hold = state_of (known o hold)

-- What is done through `decided_mut`.
abbrev pub change_hold : (Hold → Hold) → Entry → Entry
change_hold f (decided hold) = decided (f hold)
change_hold f entry = entry

abbrev pub taking : Amount → Bool → Hold → Hold
taking amount resolves h = record h {
  reserved = add_i64 h.reserved amount;
  resolved = h.resolved || resolves;
}

unfoldable pub reserve : HoldOverlay → TxId → Amount → Bool → HoldOverlay
reserve o hold amount resolves = change o hold (change_hold (taking amount resolves))

abbrev pub releasing : Amount → Hold → Hold
releasing amount h = record h { reserved = max_ℤ (sub_i64 h.reserved amount) (pos 0) }

unfoldable pub release_reservation : HoldOverlay → TxId → Amount → HoldOverlay
release_reservation o hold amount = change o hold (change_hold (releasing amount))

abbrev pub noting : Amount → Hold → Hold
noting remaining h = record h { committed_remaining = remaining }

unfoldable pub note_remaining : HoldOverlay → TxId → Amount → HoldOverlay
note_remaining o hold remaining = change o hold (change_hold (noting remaining))

-- A committed removal: the marker is left always.
unfoldable pub forget : HoldOverlay → TxId → ℕ → HoldOverlay
forget o hold safe_after = keep o hold (removed (pins_at o hold) safe_after)

abbrev pub giving_back : Amount → Bool → Hold → Hold
giving_back amount resolves h = record h {
  reserved = sub_i64 h.reserved amount;
  resolved = if resolves then false else h.resolved;
}

unfoldable pub compensate : HoldOverlay → TxId → Amount → Bool → HoldOverlay
compensate o hold amount resolves = change o hold (change_hold (giving_back amount resolves))

-- What housekeeping may drop, pins aside.
abbrev pub is_idle : ℕ → Entry → Bool
is_idle applied (decided hold) = eqb_ℤ hold.reserved (pos 0) && not hold.resolved
is_idle applied (removed _ safe_after) = leb safe_after applied
is_idle applied (watched _) = true
is_idle applied (missing _) = true

pub evicts : ℕ → ℕ → ℕ → Entry → Bool
evicts budget applied evicted entry =
    ltb evicted budget && not (ltb 0 (pinned_of entry)) && is_idle applied entry

pub retain : ℕ → ℕ → ℕ → Map Entry → Map Entry × ℕ
unfolding evicts
retain budget applied evicted [] = ([], evicted)
retain budget applied evicted ((hold, entry) ∷ m) =
    let drops = evicts budget applied evicted entry in
    let rest = retain budget applied (if drops then evicted + 1 else evicted) m in
    (if drops then rest.0 else (hold, entry) ∷ rest.0, rest.1)

unfoldable pub maintain : HoldOverlay → ℕ → HoldOverlay × ℕ
unfolding retain count_entries
maintain o applied =
    let r = retain o.eviction_per_round applied 0 o.entries in
    if leb (count_entries o.entries) o.soft_limit then (o, 0) else (record o { entries = r.0 }, r.1)
