-- ===== src/Sequencer/State/Safety.antt =====
-- sequencer/src/state/safety.rs: the quarantined lanes, and the two ways a node stops.
pub mod Laws
use my_ledger.Common.{
  ℕ, Bool, true, false, not, ◌||◌, List, [], ◌∷◌, leb, ◌==◌, if◌then◌else◌, length, push_back,
}
use my_ledger.Base.Ids.{AccountId}

pub record Safety : Type 0 where
  -- `SafetyPolicy::quarantine_fail_stop`
  pub quarantine_fail_stop : ℕ
  pub quarantined : List AccountId
  pub fail_stop : Bool
  pub applies_sealed : Bool

abbrev pub new_safety : ℕ → Safety
new_safety policy = record {
  quarantine_fail_stop = policy;
  quarantined = [];
  fail_stop = false;
  applies_sealed = false;
}

-- `fail_stop`: also whether this was the first time.
unfoldable pub trip : Safety → Safety × Bool
trip s = (record s { fail_stop = true }, not s.fail_stop)

unfoldable pub clear_fail_stop : Safety → Safety
clear_fail_stop s = record s { fail_stop = false }

unfoldable pub seal_applies : Safety → Safety × Bool
seal_applies s = (record s { applies_sealed = true; fail_stop = true }, not s.applies_sealed)

pub contains : List AccountId → AccountId → Bool
contains [] lane = false
contains (q ∷ qs) lane = q == lane || contains qs lane

unfoldable pub quarantine : Safety → AccountId → Safety × Bool
unfolding contains
quarantine s lane =
    if contains s.quarantined lane
    then (s, false)
    else (record s { quarantined = push_back s.quarantined lane }, true)

drop_lane : List AccountId → AccountId → List AccountId
drop_lane [] lane = []
drop_lane (q ∷ qs) lane = let rest = drop_lane qs lane in if q == lane then rest else q ∷ rest

unfoldable pub release : Safety → AccountId → Safety
unfolding drop_lane
release s lane = record s { quarantined = drop_lane s.quarantined lane }

unfoldable pub lanes_lost : Safety → Bool
lanes_lost s = leb s.quarantine_fail_stop (length s.quarantined)
