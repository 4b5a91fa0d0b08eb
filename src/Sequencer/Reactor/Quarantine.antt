-- ===== src/Sequencer/Reactor/Quarantine.antt =====
-- The flag of a lane and the list that decides fail-stop agree about quarantine.
use my_ledger.Common.{
  ◌≡◌, refl, arith, inl, inr, true, List, [], ◌∷◌, Option, none, some, if◌then◌else◌, ==_iff,
  Bool-cases, push_back,
}
use my_ledger.Base.Ids.{AccountId, AcctHandle}
use my_ledger.Account.{resolve}
use my_ledger.Sequencer.State.Lane.{LaneState, LaneTable, get, update}
use my_ledger.Sequencer.State.Lane
use my_ledger.Sequencer.State.Lane.Overlay.{get-update}
use my_ledger.Sequencer.State.Safety.{Safety, contains, trip, lanes_lost}
use my_ledger.Sequencer.State.Safety
use my_ledger.Sequencer.Reactor.{Reactor, quarantine_lane, trip_fail_stop, flagged_at, all_flagged}

quarantine-flag :
    (lanes : LaneTable) (handle other : AcctHandle)
    → (get lanes other).quarantined ≡ true
    → (get (update lanes handle Lane.quarantine) other).quarantined ≡ true
unfolding Lane.quarantine
quarantine-flag lanes handle other h = ground (arith, get-update lanes handle other Lane.quarantine)

flagged_stays :
    (lanes : LaneTable) (handle : AcctHandle) (at : Option AcctHandle)
    → flagged_at lanes at ≡ true
    → flagged_at (update lanes handle Lane.quarantine) at ≡ true
flagged_stays lanes handle none h = h
flagged_stays lanes handle (some other) h = quarantine-flag lanes handle other h

flags_own :
    (lanes : LaneTable) (handle : AcctHandle)
    → flagged_at (update lanes handle Lane.quarantine) (some handle) ≡ true
unfolding Lane.quarantine
flags_own lanes handle =
    ground (arith, get-update lanes handle handle Lane.quarantine, (==_iff handle handle).1 refl)

all_flagged_stays :
    (r s : Reactor) (handle : AcctHandle) (ids : List AccountId)
    → s.lanes ≡ update r.lanes handle Lane.quarantine
    → s.accounts ≡ r.accounts
    → all_flagged r ids ≡ true
    → all_flagged s ids ≡ true
unfolding all_flagged
all_flagged_stays r s handle [] e f h = refl
all_flagged_stays r s handle (id ∷ ids) e f h = ground (
  arith,
  flagged_stays r.lanes handle (resolve r.accounts id),
  all_flagged_stays r s handle ids e f,
)

all_flagged-push :
    (s : Reactor) (ids : List AccountId) (id : AccountId)
    → all_flagged s ids ≡ true
    → flagged_at s.lanes (resolve s.accounts id) ≡ true
    → all_flagged s (push_back ids id) ≡ true
unfolding all_flagged
all_flagged-push s [] id h k = ground arith
all_flagged-push s (i ∷ ids) id h k = ground (arith, all_flagged-push s ids id)

quarantine_lane_parts :
    (r : Reactor) (account : AccountId) (handle : AcctHandle)
    → ((quarantine_lane r account handle).lanes ≡ update r.lanes handle Lane.quarantine)
      × ((quarantine_lane r account handle).accounts ≡ r.accounts)
      × ((quarantine_lane r account handle).safety.quarantined ≡ (
          if contains r.safety.quarantined account
          then r.safety.quarantined
          else push_back r.safety.quarantined account))
unfolding quarantine_lane trip_fail_stop trip Safety.quarantine
quarantine_lane_parts r account handle = ground arith

-- Quarantining the lane of an account keeps the list of quarantined accounts and the flags of their
-- lanes in agreement, which is what the last check of an audit asks; the account's own lane is flagged.
pub quarantine_lane-all_flagged :
    (r : Reactor) (account : AccountId) (handle : AcctHandle)
    → resolve r.accounts account ≡ some handle
    → all_flagged r r.safety.quarantined ≡ true
    → let r' = quarantine_lane r account handle in
      (all_flagged r' r'.safety.quarantined ≡ true)
      × (flagged_at r'.lanes (resolve r'.accounts account) ≡ true)
unfolding quarantine_lane
quarantine_lane-all_flagged r account handle e agreed =
    let r' = quarantine_lane r account handle in
    let parts = quarantine_lane_parts r account handle in
    let own = flags_own r.lanes handle in
    let kept = all_flagged_stays r r' handle r.safety.quarantined parts.0 parts.1 agreed in
    let flagged : flagged_at r'.lanes (resolve r'.accounts account) ≡ true =
      rw (parts.0, parts.1, e) own in
    rw parts.2 (elim (Bool-cases (contains r.safety.quarantined account)) [
      | inl listed ↦ rw listed (kept, flagged)
      | inr new ↦ rw new (all_flagged-push r' r.safety.quarantined account kept flagged, flagged)
    ])
