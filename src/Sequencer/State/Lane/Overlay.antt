-- ===== src/Sequencer/State/Lane/Overlay.antt =====
-- The speculative overlay of a lane: what is promised is given back exactly, to the lane it came from.
use my_ledger.Common.{
  ℕ, zero, suc, ◌+◌, ◌-◌, ◌<◌, ◌≡◌, refl, [], ◌∷◌, ◌++◌, arith, length, length-append, get_or,
  replicate, get_or-set_self, get_or-set_ne, if◌then◌else◌, inl, inr, Bool-cases, ==_iff, ◌==◌,
}
use my_ledger.Common.Int.{IsI64, add_i64-sub_i64}
use my_ledger.Base.Ids.{Amount, AcctHandle}
use my_ledger.Base.Effect.{Effect, reservation}
use my_ledger.Sequencer.State.Lane.{
  LaneState, LaneTable, idle_lane, get, grow, update, reserve, release, reserve_amount,
  release_amount,
}

get_or-replicate : (k i : ℕ) → get_or (replicate k idle_lane) i idle_lane ≡ idle_lane
get_or-replicate zero i = refl
get_or-replicate (suc k) zero = refl
get_or-replicate (suc k) (suc i) = get_or-replicate k i

get_or-append_idle :
    (lanes : LaneTable) (k i : ℕ)
    → get_or (lanes ++ replicate k idle_lane) i idle_lane ≡ get_or lanes i idle_lane
get_or-append_idle [] k i = get_or-replicate k i
get_or-append_idle (lane ∷ lanes) k zero = refl
get_or-append_idle (lane ∷ lanes) k (suc i) = get_or-append_idle lanes k i

length-replicate : (k : ℕ) → length (replicate k idle_lane) ≡ k
length-replicate zero = refl
length-replicate (suc k) = omega (arith, length-replicate k)

pub get_or-grow :
    (lanes : LaneTable) (handle i : ℕ)
    → get_or (grow lanes handle) i idle_lane ≡ get_or lanes i idle_lane
unfolding grow
get_or-grow lanes handle i = ground (arith, get_or-append_idle lanes (handle + 1 - length lanes) i)

lt-length-grow : (lanes : LaneTable) (handle : ℕ) → handle < length (grow lanes handle)
unfolding grow
lt-length-grow lanes handle = ground (
  arith,
  length-append lanes (replicate (handle + 1 - length lanes) idle_lane),
  length-replicate (handle + 1 - length lanes),
)

-- A write through `get_mut` changes the lane of its handle and reads no other.
pub get-update :
    (lanes : LaneTable) (handle other : AcctHandle) (f : LaneState → LaneState)
    → get (update lanes handle f) other
      ≡ (if handle == other then f (get lanes handle) else get lanes other)
unfolding get update
get-update lanes handle other f = elim (Bool-cases (handle == other)) [
  | inl same ↦
      rw
        (
          same,
          ← (==_iff handle other).0 same,
          get_or-set_self (grow lanes handle) handle
              (f (get_or (grow lanes handle) handle idle_lane)) idle_lane
              (lt-length-grow lanes handle),
          get_or-grow lanes handle handle,
        )
        refl
  | inr differs ↦ ground (
    arith,
    get_or-set_ne (grow lanes handle) handle other (f (get_or (grow lanes handle) handle idle_lane))
        idle_lane,
    get_or-grow lanes handle other,
  )
]

reserved_back :
    (lane : LaneState) (amount : Amount)
    → IsI64 lane.speculative
    → IsI64 amount
    → release_amount (reserve_amount lane amount) amount ≡ lane
unfolding release_amount reserve_amount
reserved_back lane amount h k = rw (add_i64-sub_i64 lane.speculative amount h k)

-- What an effect takes of the overlay is exactly what it gives back, even where the sum wraps: every
-- lane reads as it did before, the effect's own and all others.
pub release-reserve :
    (lanes : LaneTable) (effect : Effect) (handle : AcctHandle)
    → IsI64 (get lanes effect.debit).speculative
    → IsI64 (reservation effect)
    → get (release (reserve lanes effect) effect) handle ≡ get lanes handle
unfolding release reserve
release-reserve lanes effect handle h k =
    let amount = reservation effect in
    let take = λ (lane : LaneState). reserve_amount lane amount in
    let give = λ (lane : LaneState). release_amount lane amount in
    ground (
      arith,
      get-update (update lanes effect.debit take) effect.debit handle give,
      get-update lanes effect.debit effect.debit take,
      get-update lanes effect.debit handle take,
      reserved_back (get lanes effect.debit) amount h k,
    )
