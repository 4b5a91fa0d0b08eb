-- ===== src/Examples/Orderer.antt =====
-- The orderer at concrete inputs: two places of lane 7, the second filled first.
use my_ledger.Common.{ℕ, ◌≡◌, ◌≢◌, some, refl, arith, List, [], ◌∷◌, ◌++◌, true, is_some, inl, inr}
use my_ledger.Common.Map.{lookup, insert}
use my_ledger.Base.Ids.{Seq}
use my_ledger.Pending.Orderer.{
  Orderer, Left, orderer_new, lane_of, expect, fill, pop_ready, turns, filled_lane, release_seq,
  head_of,
}
use my_ledger.Pending.Orderer.Report.{next_due}
use my_ledger.Pending.Orderer.Due.{due_by, pop_ready-next_due}
use my_ledger.Pending.Orderer.History.{Run, start, expects, fills, pops, Run-Waits}
use my_ledger.Pending.Orderer.Seqs.{last_from}
use my_ledger.Pending.Orderer.Turns.{place_left}
use my_ledger.Pending.Orderer.Values.{Came}
use my_ledger.Pending.Orderer.Waits.{Waits}

abbrev reserved_two : Orderer ℕ
reserved_two = expect (expect (orderer_new 0) 7 5) 7 6

abbrev second_done : Orderer ℕ
second_done = fill reserved_two 7 6 0 60

abbrev both_done : Orderer ℕ
both_done = fill (pop_ready second_done 1).0 7 5 1 50

abbrev left_first : List Seq
left_first = [] ++ place_left 7 (pop_ready second_done 1).1

abbrev left_second : List Seq
left_second = left_first ++ place_left 7 (pop_ready both_done 1).1

reserved_two-Run : Run 7 reserved_two (5 ∷ 6 ∷ []) [] []
unfolding last_from
reserved_two-Run =
    expects 6 (expects 5 start (omega arith) (omega arith) (inl refl)) (omega arith) (omega arith)
      (inr refl)

second_waits : is_some (lookup 6 (lane_of reserved_two 7).places) ≡ true
unfolding lookup insert expect
second_waits = refl

first_waits : is_some (lookup 5 (lane_of (pop_ready second_done 1).0 7).places) ≡ true
unfolding lookup insert expect fill pop_ready turns filled_lane release_seq head_of
first_waits = refl

abbrev both_came : List (Seq × ℕ)
both_came = (5, 50) ∷ (6, 60) ∷ []

both_done-Run : Run 7 both_done (5 ∷ 6 ∷ []) left_first both_came
both_done-Run =
    fills 5 1 50 (pops 1 (fills 6 0 60 reserved_two-Run (inr second_waits))) (inr first_waits)

first_left : left_second ≡ 5 ∷ []
unfolding lookup insert expect fill pop_ready turns filled_lane release_seq head_of place_left
first_left = refl

Run-Waits_example :
    Waits (5 ∷ 6 ∷ []) left_first (lane_of both_done 7)
    × ((now : ℕ) (reply : Left ℕ)
        → (pop_ready both_done now).1 ≡ some reply
        → reply.lane ≡ 7
        → reply.seq ≢ 0
        → Came reply.seq reply.held.value both_came)
Run-Waits_example = Run-Waits 7 both_done (5 ∷ 6 ∷ []) left_first both_came both_done-Run

pop_ready-next_due_example : is_some (pop_ready both_done 1).1 ≡ due_by (next_due both_done) 1
pop_ready-next_due_example = pop_ready-next_due both_done 1
