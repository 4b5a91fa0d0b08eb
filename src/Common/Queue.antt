-- ===== src/Common/Queue.antt =====
-- A bounded queue to another thread, as its producer sees it: what it has taken, oldest first, and how
-- many more it will take before it refuses.
use my_ledger.Common.Lists.{push_back}
use Prim.Native.Nat.{ℕ, zero, suc}
use mathlib.Core.Bool.{Bool, true, false}
use mathlib.Core.List.{List}
use mathlib.Core.Path.{◌≡◌, refl}
use my_ledger.Common.Tests.{if◌then◌else◌}

pub record Queue {ℓ} (A : Type ℓ) : Type ℓ where
  pub taken : List A
  pub room : ℕ

module _ {ℓ} {A : Type ℓ} where
  push_within : ℕ → Queue A → A → Queue A × Bool
  push_within zero q a = (q, false)
  push_within (suc room) q a = (record { taken = push_back q.taken a; room = room }, true)

  -- `Producer::push`: true when the queue took the item.
  unfoldable pub push : Queue A → A → Queue A × Bool
  unfolding push_within
  push q a = push_within q.room q a

  taken-push_within :
      (room : ℕ) (q : Queue A) (a : A)
      → (push_within room q a).0.taken
        ≡ (if (push_within room q a).1 then push_back q.taken a else q.taken)
  unfolding push_within
  taken-push_within zero q a = refl
  taken-push_within (suc room) q a = refl

  -- What the queue has taken after an offer.
  pub taken-push :
      (q : Queue A) (a : A)
      → (push q a).0.taken ≡ (if (push q a).1 then push_back q.taken a else q.taken)
  unfolding push
  taken-push q a = taken-push_within q.room q a

  -- An offer is refused only where there is no room.
  pub push_refused : (q : Queue A) (a : A) → q.room ≡ zero → (push q a) ≡ (q, false)
  unfolding push push_within
  push_refused q a full = rw full refl
