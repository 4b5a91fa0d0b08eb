-- ===== src/Pending/Overlay/Reservation.antt =====
-- What resolutions in flight take of a hold, and what a failed commit gives back.
use my_ledger.Common.{
  ◌≡◌, refl, Bool, false, Option, none, some, ◌==◌, if◌then◌else◌, arith, inl, inr, Bool-cases,
}
use my_ledger.Common.Int.{ℤ, IsI64, ◌-ℤ◌, sub_i64-add_i64}
use my_ledger.Common.Map.{lookup}
use my_ledger.Base.Ids.{Amount, TxId}
use my_ledger.Pending.Overlay.{
  HoldOverlay, Hold, Known, live, taking, giving_back, watched, missing, removed, change, Entry,
  decided, change_hold, known, known_entry, reserve, compensate,
}
use my_ledger.Pending.Overlay.Entries.{lookup-change, map_entry}

-- What a change of the decided hold does to what is known.
abbrev pub live_map : (Hold → Hold) → Known → Known
live_map f (live h) = live (f h)
live_map f known = known

known_entry-change_hold :
    (f : Hold → Hold) (e : Option Entry)
    → known_entry (map_entry (change_hold f) e) ≡ live_map f (known_entry e)
known_entry-change_hold f none = refl
known_entry-change_hold f (some (watched _)) = refl
known_entry-change_hold f (some (missing _)) = refl
known_entry-change_hold f (some (removed _ _)) = refl
known_entry-change_hold f (some (decided _)) = refl

pub known-change :
    (o : HoldOverlay) (hold other : TxId) (f : Hold → Hold)
    → known (change o hold (change_hold f)) other
      ≡ (if hold == other then live_map f (known o hold) else known o other)
unfolding known
known-change o hold other f =
    rw (lookup-change o hold other (change_hold f)) (elim (Bool-cases (hold == other)) [
      | inl same ↦ rw same (known_entry-change_hold f (lookup hold o.entries))
      | inr differs ↦ rw differs
    ])

-- A failed commit undoes what the judgment took, for every hold: what the overlay knows afterwards is
-- what it knew before the reservation, when the hold was live and not yet resolved.
pub compensate-reserve :
    (o : HoldOverlay) (hold other : TxId) (h : Hold) (amount : Amount) (resolves : Bool)
    → known o hold ≡ live h
    → h.resolved ≡ false
    → IsI64 h.reserved
    → IsI64 amount
    → known (compensate (reserve o hold amount resolves) hold amount resolves) other ≡ known o other
unfolding compensate reserve
compensate-reserve o hold other h amount resolves e unresolved i k = ground (
  arith,
  known-change (reserve o hold amount resolves) hold other (giving_back amount resolves),
  known-change o hold hold (taking amount resolves),
  known-change o hold other (taking amount resolves),
  sub_i64-add_i64 h.reserved amount i k,
)

-- What a live hold still has for the next resolution.
abbrev pub spare : Hold → ℤ
spare h = h.committed_remaining -ℤ h.reserved
