-- ===== src/Sequencer/State/Safety/Laws.antt =====
-- The quarantine list counts each lane once, and a sealed node stays sealed.
use my_ledger.Common.{
  ◌+◌, ◌≡◌, true, false, ◌||◌, List, [], ◌∷◌, arith, length, ◌==◌, if◌then◌else◌, push_back,
  length-append, refl,
}
use my_ledger.Base.Ids.{AccountId}
use my_ledger.Sequencer.State.Safety.{
  Safety, trip, clear_fail_stop, seal_applies, quarantine, release, contains, drop_lane,
}

contains-push_back :
    (qs : List AccountId) (lane other : AccountId)
    → contains (push_back qs lane) other ≡ (contains qs other || lane == other)
unfolding contains
contains-push_back [] lane other = ground arith
contains-push_back (q ∷ qs) lane other = ground (arith, contains-push_back qs lane other)

contains-drop_lane :
    (qs : List AccountId) (lane other : AccountId)
    → contains (drop_lane qs lane) other ≡ (if lane == other then false else contains qs other)
unfolding contains drop_lane
contains-drop_lane [] lane other = ground arith
contains-drop_lane (q ∷ qs) lane other = ground (arith, contains-drop_lane qs lane other)

-- Every lane stands in the list once at most.
abbrev pub IsDistinct : List AccountId → Type 0
IsDistinct [] = Unit {0}
IsDistinct (q ∷ qs) = (contains qs q ≡ false) × IsDistinct qs

push_back-IsDistinct :
    (qs : List AccountId) (lane : AccountId)
    → contains qs lane ≡ false
    → IsDistinct qs
    → IsDistinct (push_back qs lane)
unfolding contains
push_back-IsDistinct [] lane h d = (refl, tt)
push_back-IsDistinct (q ∷ qs) lane h d =
    ground (arith, contains-push_back qs lane q, push_back-IsDistinct qs lane)

drop_lane-IsDistinct :
    (qs : List AccountId) (lane : AccountId) → IsDistinct qs → IsDistinct (drop_lane qs lane)
unfolding drop_lane
drop_lane-IsDistinct [] lane d = tt
drop_lane-IsDistinct (q ∷ qs) lane d =
    ground (arith, contains-drop_lane qs lane q, drop_lane-IsDistinct qs lane)

-- Quarantining a lane adds that lane and no other, says whether it was new, and counts it once only;
-- releasing it removes that lane and no other.
pub quarantine_lem :
    (s : Safety) (lane other : AccountId)
    → IsDistinct s.quarantined
    → let (s', first) = quarantine s lane in
      (contains s'.quarantined other ≡ (contains s.quarantined other || lane == other))
      × (length s'.quarantined ≡ length s.quarantined + (if first then 1 else 0))
      × IsDistinct s'.quarantined
      × (contains (release s' lane).quarantined other
          ≡ (if lane == other then false else contains s.quarantined other))
unfolding quarantine release
quarantine_lem s lane other d = ground (
  arith,
  contains-push_back s.quarantined lane other,
  contains-drop_lane s.quarantined lane other,
  contains-drop_lane (push_back s.quarantined lane) lane other,
  push_back-IsDistinct s.quarantined lane,
  length-append s.quarantined (lane ∷ []),
)

pub data SafetyOp : Type 0 where
  trips clears seals : SafetyOp
  quarantines releases : AccountId → SafetyOp

pub step : Safety → SafetyOp → Safety
step s SafetyOp.trips = (trip s).0
step s SafetyOp.clears = clear_fail_stop s
step s SafetyOp.seals = (seal_applies s).0
step s (SafetyOp.quarantines lane) = (quarantine s lane).0
step s (SafetyOp.releases lane) = release s lane

unfoldable pub run : Safety → List SafetyOp → Safety
run s [] = s
run s (op ∷ ops) = run (step s op) ops

step_sealed :
    (s : Safety) (op : SafetyOp) → s.applies_sealed ≡ true → (step s op).applies_sealed ≡ true
unfolding step trip clear_fail_stop seal_applies quarantine release
step_sealed s SafetyOp.trips h = ground arith
step_sealed s op h = ground arith

pub run_sealed_from :
    (s : Safety) (ops : List SafetyOp) → s.applies_sealed ≡ true → (run s ops).applies_sealed ≡ true
unfolding run
run_sealed_from s [] h = h
run_sealed_from s (op ∷ ops) h = run_sealed_from (step s op) ops (step_sealed s op h)
