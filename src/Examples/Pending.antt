-- ===== src/Examples/Pending.antt =====
-- pending: an overlay with one live hold.
use my_ledger.Common.{◌≡◌, ◌≤◌, ◌+◌, refl, true, arith, some, [], ◌∷◌}
use my_ledger.Common.Int.{pos}
use my_ledger.Common.Map.{lookup}
use my_ledger.Base.Ports.Pending.{compose}
use my_ledger.Pending.Overlay.{forget, hold_is_missing, overlay, maintain, decided, count_entries}
use my_ledger.Pending.Overlay.Removal.{run, begins, admits, maintains, run-forget}
use my_ledger.Pending.Overlay.Eviction.{reserved, maintain-keeps_needed}
use my_ledger.Examples.Data.{hold_overlay, open_hold, hold_record}

run-forget_example :
    let o' =
      run (forget hold_overlay 5 3) (begins 5 ∷ admits 5 (some (pos 50)) ∷ maintains 2 ∷ []) in
    (hold_is_missing o' 5 ≡ true) × ((compose hold_record (overlay o' 5)).resolved ≡ true)
run-forget_example =
    run-forget hold_overlay 5 3 (begins 5 ∷ admits 5 (some (pos 50)) ∷ maintains 2 ∷ []) hold_record
      (tt, (tt, (omega arith, tt)))

maintain-keeps_needed_example :
    let (o', evicted) = maintain hold_overlay 0 in
    (lookup 5 o'.entries ≡ some (decided open_hold))
    × (count_entries o'.entries + evicted ≡ count_entries hold_overlay.entries)
    × (evicted ≤ 2)
unfolding lookup
maintain-keeps_needed_example =
    maintain-keeps_needed hold_overlay 0 5 (decided open_hold) refl
      (reserved open_hold (λ none_reserved. absurd (ground (arith, none_reserved))))
