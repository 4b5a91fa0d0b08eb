-- ===== src/Pending/Overlay/Removal.antt =====
-- A hold that a committed removal took away is not resolved again.
use my_ledger.Common.{
  ℕ, ◌-◌, inc_word, ◌≤◌, ◌<◌, ◌≡◌, ◌≢◌, refl, Bool, true, Option, none, some, List, [], ◌∷◌, ◌==◌,
  arith, inl, inr, Bool-cases, ==_iff, All,
}
use my_ledger.Common.Map.{lookup}
use my_ledger.Base.Ids.{Amount, TxId}
use my_ledger.Base.Ports.Pending.{HoldData, compose}
use my_ledger.Pending.Overlay.{
  HoldOverlay, Entry, watched, missing, removed, decided, Hold, pinned_of, hold_is_missing,
  begin_lookup, pin, unpin, admit_lookup, admit_answer, created, decide, reserve,
  release_reservation, note_remaining, forget, compensate, maintain, keep, saw, change, set_pins,
  change_hold, overlay, known, known_entry, gone, fresh_hold, pins_at,
}
use my_ledger.Pending.Overlay.Entries.{lookup-keep, lookup-change, lookup-retain, map_entry}

pub data OverlayOp : Type 0 where
  begins pins unpins : TxId → OverlayOp
  admits : TxId → Option Amount → OverlayOp
  creates notes : TxId → Amount → OverlayOp
  reserves compensates : TxId → Amount → Bool → OverlayOp
  releases : TxId → Amount → OverlayOp
  forgets : TxId → ℕ → OverlayOp
  maintains : ℕ → OverlayOp

pub step : HoldOverlay → OverlayOp → HoldOverlay
step o (begins hold) = begin_lookup o hold
step o (pins hold) = pin o hold
step o (unpins hold) = unpin o hold
step o (admits hold answer) = admit_lookup o hold answer
step o (creates hold amount) = created o hold amount
step o (notes hold remaining) = note_remaining o hold remaining
step o (reserves hold amount resolves) = reserve o hold amount resolves
step o (compensates hold amount resolves) = compensate o hold amount resolves
step o (releases hold amount) = release_reservation o hold amount
step o (forgets hold safe_after) = forget o hold safe_after
step o (maintains applied) = (maintain o applied).0

pub run : HoldOverlay → List OverlayOp → HoldOverlay
run o [] = o
run o (op ∷ ops) = run (step o op) ops

-- What the sequencer does while the engine has applied fewer than `safe_after` decisions: it may do
-- anything but create this very hold again, and the counts it hands over only grow.
abbrev pub IsBefore : TxId → ℕ → OverlayOp → Type 0
IsBefore hold safe_after (creates other _) = hold ≢ other
IsBefore hold safe_after (forgets _ later) = safe_after ≤ later
IsBefore hold safe_after (maintains applied) = applied < safe_after
IsBefore hold safe_after _ = Unit {0}

abbrev IsMarked : ℕ → Option Entry → Type 0
IsMarked safe_after (some (removed _ after)) = safe_after ≤ after
IsMarked safe_after _ = ⊥

module _ (safe_after : ℕ) where
  change-IsMarked :
      (o : HoldOverlay) (other hold : TxId) (f : Entry → Entry)
      → ((entry : Entry) → IsMarked safe_after (some entry) → IsMarked safe_after (some (f entry)))
      → IsMarked safe_after (lookup hold o.entries)
      → IsMarked safe_after (lookup hold (change o other f).entries)
  change-IsMarked o other hold f marks h =
      rw (lookup-change o other hold f) (elim (Bool-cases (other == hold)) [
        | inr differs ↦ rw differs h
        | inl same ↦ rw (same, (==_iff other hold).0 same) (mapped (lookup hold o.entries) h)
      ])
    where
      mapped : (e : Option Entry) → IsMarked safe_after e → IsMarked safe_after (map_entry f e)
      mapped none m = m
      mapped (some entry) m = marks entry m

  set_pins-IsMarked :
      (n : Entry → ℕ) (entry : Entry)
      → IsMarked safe_after (some entry)
      → IsMarked safe_after (some (set_pins entry (n entry)))
  set_pins-IsMarked n (watched _) m = m
  set_pins-IsMarked n (missing _) m = m
  set_pins-IsMarked n (removed _ _) m = m
  set_pins-IsMarked n (decided _) m = m

  change_hold-IsMarked :
      (f : Hold → Hold) (entry : Entry)
      → IsMarked safe_after (some entry)
      → IsMarked safe_after (some (change_hold f entry))
  change_hold-IsMarked f (watched _) m = m
  change_hold-IsMarked f (missing _) m = m
  change_hold-IsMarked f (removed _ _) m = m
  change_hold-IsMarked f (decided _) m = m

  keep-IsMarked_other :
      (o : HoldOverlay) (other hold : TxId) (entry : Entry)
      → other ≢ hold
      → IsMarked safe_after (lookup hold o.entries)
      → IsMarked safe_after (lookup hold (keep o other entry).entries)
  keep-IsMarked_other o other hold entry ne h = ground (arith, lookup-keep o other hold entry)

  -- The marker of a removal that the engine has not applied is never dropped.
  maintain-IsMarked :
      (o : HoldOverlay) (applied : ℕ) (hold : TxId)
      → applied < safe_after
      → IsMarked safe_after (lookup hold o.entries)
      → IsMarked safe_after (lookup hold (maintain o applied).0.entries)
  unfolding maintain
  maintain-IsMarked o applied hold before h = marked (lookup hold o.entries) refl h
    where
      marked :
          (e : Option Entry)
          → lookup hold o.entries ≡ e
          → IsMarked safe_after e
          → IsMarked safe_after (lookup hold (maintain o applied).0.entries)
      marked none found m = absurd m
      marked (some (watched _)) found m = absurd m
      marked (some (missing _)) found m = absurd m
      marked (some (decided _)) found m = absurd m
      marked (some (removed n after)) found m =
          ground
            (arith, lookup-retain o.eviction_per_round applied 0 hold (removed n after) o.entries)

  known-IsMarked :
      (o : HoldOverlay) (hold : TxId)
      → IsMarked safe_after (lookup hold o.entries)
      → known o hold ≡ gone
  unfolding known
  known-IsMarked o hold h = marked (lookup hold o.entries) h
    where
      marked : (e : Option Entry) → IsMarked safe_after e → known_entry e ≡ gone
      marked none m = absurd m
      marked (some (watched _)) m = absurd m
      marked (some (missing _)) m = absurd m
      marked (some (decided _)) m = absurd m
      marked (some (removed _ _)) m = refl

  begin_lookup-IsMarked :
      (o : HoldOverlay) (other hold : TxId)
      → IsMarked safe_after (lookup hold o.entries)
      → IsMarked safe_after (lookup hold (begin_lookup o other).entries)
  unfolding begin_lookup saw
  begin_lookup-IsMarked o other hold h = ground (arith, lookup-keep o other hold (watched 0))

  admit_answer-IsMarked :
      (o : HoldOverlay) (other hold : TxId) (answer : Option Amount)
      → other ≢ hold
      → IsMarked safe_after (lookup hold o.entries)
      → IsMarked safe_after (lookup hold (admit_answer o other answer).entries)
  unfolding admit_answer decide
  admit_answer-IsMarked o other hold none ne h = keep-IsMarked_other o other hold _ ne h
  admit_answer-IsMarked o other hold (some r) ne h = keep-IsMarked_other o other hold _ ne h

  admit_lookup-IsMarked :
      (o : HoldOverlay) (other hold : TxId) (answer : Option Amount)
      → IsMarked safe_after (lookup hold o.entries)
      → IsMarked safe_after (lookup hold (admit_lookup o other answer).entries)
  unfolding admit_lookup
  admit_lookup-IsMarked o other hold answer h = elim (Bool-cases (other == hold)) [
    | inl same ↦
        rw ((==_iff other hold).0 same, admit_lookup) (rw (known-IsMarked o hold h, admit_lookup) h)
    | inr differs ↦ ground (arith, admit_answer-IsMarked o other hold answer)
  ]

  created-IsMarked :
      (o : HoldOverlay) (other hold : TxId) (amount : Amount)
      → hold ≢ other
      → IsMarked safe_after (lookup hold o.entries)
      → IsMarked safe_after (lookup hold (created o other amount).entries)
  unfolding created decide
  created-IsMarked o other hold amount ne h =
      ground (arith, keep-IsMarked_other o other hold (fresh_hold (pins_at o other) amount))

  forget-IsMarked :
      (o : HoldOverlay) (other hold : TxId) (later : ℕ)
      → safe_after ≤ later
      → IsMarked safe_after (lookup hold o.entries)
      → IsMarked safe_after (lookup hold (forget o other later).entries)
  unfolding forget
  forget-IsMarked o other hold later le h =
      ground (arith, lookup-keep o other hold (removed (pins_at o other) later))

  step-IsMarked :
      (o : HoldOverlay) (hold : TxId) (op : OverlayOp)
      → IsBefore hold safe_after op
      → IsMarked safe_after (lookup hold o.entries)
      → IsMarked safe_after (lookup hold (step o op).entries)
  unfolding step pin unpin reserve release_reservation note_remaining compensate
  step-IsMarked o hold (begins other) b h = begin_lookup-IsMarked o other hold h
  step-IsMarked o hold (pins other) b h =
      change-IsMarked o other hold _ (set_pins-IsMarked (λ e. inc_word 32 (pinned_of e))) h
  step-IsMarked o hold (unpins other) b h =
      change-IsMarked o other hold _ (set_pins-IsMarked (λ e. pinned_of e - 1)) h
  step-IsMarked o hold (admits other answer) b h = admit_lookup-IsMarked o other hold answer h
  step-IsMarked o hold (creates other amount) b h = created-IsMarked o other hold amount b h
  step-IsMarked o hold (notes other r) b h =
      change-IsMarked o other hold _ (change_hold-IsMarked _) h
  step-IsMarked o hold (reserves other amount resolves) b h =
      change-IsMarked o other hold _ (change_hold-IsMarked _) h
  step-IsMarked o hold (compensates other amount resolves) b h =
      change-IsMarked o other hold _ (change_hold-IsMarked _) h
  step-IsMarked o hold (releases other amount) b h =
      change-IsMarked o other hold _ (change_hold-IsMarked _) h
  step-IsMarked o hold (forgets other later) b h = forget-IsMarked o other hold later b h
  step-IsMarked o hold (maintains applied) b h = maintain-IsMarked o applied hold b h

  run-IsMarked :
      (o : HoldOverlay) (hold : TxId) (ops : List OverlayOp)
      → All (IsBefore hold safe_after) ops
      → IsMarked safe_after (lookup hold o.entries)
      → IsMarked safe_after (lookup hold (run o ops).entries)
  unfolding run
  run-IsMarked o hold [] b h = h
  run-IsMarked o hold (op ∷ ops) b h =
      run-IsMarked (step o op) hold ops b.1 (step-IsMarked o hold op b.0 h)

forgotten :
    (safe_after : ℕ) (o : HoldOverlay) (hold : TxId)
    → IsMarked safe_after (lookup hold (forget o hold safe_after).entries)
unfolding forget
forgotten safe_after o hold =
    ground (arith, lookup-keep o hold hold (removed (pins_at o hold) safe_after))

-- Once a committed removal has taken a hold away, and until the engine says that it has applied it, the
-- hold stays gone whatever else is done to the overlay: lookups, answers that crossed the removal,
-- pins, reservations and housekeeping. It is reported missing, and any record that the engine may
-- still answer with is composed into a view of a resolved hold.
pub run-forget :
    (o : HoldOverlay) (hold : TxId) (safe_after : ℕ) (ops : List OverlayOp) (found : HoldData)
    → All (IsBefore hold safe_after) ops
    → let o' = run (forget o hold safe_after) ops in
      (hold_is_missing o' hold ≡ true) × ((compose found (overlay o' hold)).resolved ≡ true)
unfolding hold_is_missing overlay compose
run-forget o hold safe_after ops found b =
    let e : known (run (forget o hold safe_after) ops) hold ≡ gone =
      known-IsMarked safe_after (run (forget o hold safe_after) ops) hold (
        run-IsMarked safe_after (forget o hold safe_after) hold ops b
          (forgotten safe_after o hold)) in
    (rw e refl, rw e refl)
