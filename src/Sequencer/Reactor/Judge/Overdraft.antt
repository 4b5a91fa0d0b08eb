-- ===== src/Sequencer/Reactor/Judge/Overdraft.antt =====
-- Every history of judging, committing and rolling back the transfers that stand alone.
use my_ledger.Common.{
  subst, List, [], ◌∷◌, All, if◌then◌else◌, Bool, false, ◌≡◌, ◌∙◌, sym, ap, true, ◌==◌, inl, inr,
  Bool-cases, ==_iff,
}
use my_ledger.Common.Int.{ℤ, pos, IsI64, ◌+ℤ◌, ◌-ℤ◌, ◌≤ℤ◌, int_laws}
use my_ledger.Base.Ids.{AcctHandle}
use my_ledger.Base.Error.{ok}
use my_ledger.Base.Effect.{Effect, EffectKind, reservation}
use my_ledger.Base.Ports.Account.{is_constrained}
use my_ledger.Account.{MemoryAccounts, record_of, apply}
use my_ledger.Sequencer.State.Lane.{LaneTable, get, reserve, release}
use my_ledger.Sequencer.State.Pipeline.{WorkItem}
use my_ledger.Sequencer.Reactor.Judge.{direct_effect, direct}
use my_ledger.Sequencer.Reactor.Judge.Funds.{
  funds, worth, InRange, apply-keeps_funds, release-keeps_funds, direct_effect-IsCovered,
  direct_effect-direct, reserve-funds, flags-apply,
}
use my_ledger.Sequencer.Reactor.Judge.Books.{
  Books, promised, Step, judges, resolves, commits, rolls_back, Reach, here, next, IsBooked, IsPaid,
  Leaves-All, reservation_le, reserved_taken, released_taken,
}

-- Every constrained account can pay for what it has promised.
abbrev IsCovered : MemoryAccounts → LaneTable → Type 0
IsCovered s lanes =
    (handle : AcctHandle)
    → is_constrained (record_of s handle) ≡ true
    → pos 0 ≤ℤ funds s lanes handle

take_covered : (f a r : ℤ) → r ≤ℤ a → a ≤ℤ f → pos 0 ≤ℤ f -ℤ r
take_covered f a r h k = omega int_laws

take_nothing : (f : ℤ) → pos 0 ≤ℤ f → pos 0 ≤ℤ f -ℤ pos 0
take_nothing f h = omega int_laws

stays_covered : (f g : ℤ) → pos 0 ≤ℤ f → f ≤ℤ g → pos 0 ≤ℤ g
stays_covered f g h k = omega int_laws

judges-IsCovered :
    (s : MemoryAccounts) (lanes : LaneTable) (item : WorkItem) (kind : EffectKind) (effect : Effect)
    → direct_effect s lanes item kind (pos 0) ≡ ok effect
    → pos 0 ≤ℤ item.tx.amount
    → InRange s lanes item.debit
    → IsI64 ((get lanes effect.debit).speculative -ℤ reservation effect)
    → IsCovered s lanes
    → IsCovered s (reserve lanes effect)
judges-IsCovered s lanes item kind effect judged nonneg v j covered handle limited =
    rw (reserve-funds s lanes effect handle j) (elim (Bool-cases (effect.debit == handle)) [
      | inr differs ↦ rw differs (take_nothing (funds s lanes handle) (covered handle limited))
      | inl same ↦
          let at = (==_iff effect.debit handle).0 same in
          let e = direct_effect-direct s lanes item kind effect judged in
          rw (same, ← at, e)
            (take_covered (funds s lanes item.debit) item.tx.amount (reservation (direct item kind))
              (reservation_le (direct item kind) nonneg).0
              (direct_effect-IsCovered s lanes item kind (direct item kind) (judged ∙ ap ok e)
                (ap (λ a. is_constrained (record_of s a)) (sym (ap (λ x. x.debit) e) ∙ at)
                  ∙ limited)
                v).1)
    ])

resolves-IsCovered :
    (s : MemoryAccounts) (lanes : LaneTable) (effect : Effect)
    → reservation effect ≡ pos 0
    → IsI64 ((get lanes effect.debit).speculative -ℤ reservation effect)
    → IsCovered s lanes
    → IsCovered s (reserve lanes effect)
resolves-IsCovered s lanes effect free j covered handle limited =
    rw (reserve-funds s lanes effect handle j, free)
      (elim (Bool-cases (effect.debit == handle)) [
        | inl e ↦ rw e (take_nothing (funds s lanes handle) (covered handle limited))
        | inr e ↦ rw e (take_nothing (funds s lanes handle) (covered handle limited))
      ])

-- Covered by the overlay, and the overlay is what is waiting.
record Inv (b : Books) : Type 0 where
  covered : IsCovered b.accounts b.lanes
  booked : IsBooked b

Step-Inv : {b c : Books} → Step b c → Inv b → Inv c
Step-Inv (judges s lanes waiting item kind effect judged nonneg v j) inv = record {
  covered = judges-IsCovered s lanes item kind effect judged nonneg v j inv.covered;
  booked = record {
    taken = λ handle. reserved_taken lanes waiting effect handle j (inv.booked.taken handle);
    nonneg = (rw (direct_effect-direct s lanes item kind effect judged) nonneg, inv.booked.nonneg);
  };
}
Step-Inv (resolves s lanes waiting effect free nonneg j) inv = record {
  covered = resolves-IsCovered s lanes effect free j inv.covered;
  booked = record {
    taken = λ handle. reserved_taken lanes waiting effect handle j (inv.booked.taken handle);
    nonneg = (nonneg, inv.booked.nonneg);
  };
}
Step-Inv (commits s lanes effect l h k done i j) inv =
    let left = Leaves-All effect l inv.booked.nonneg in
    record {
      covered = λ handle limited.
          stays_covered (funds s lanes handle)
            (funds (apply s effect).0 (release lanes effect) handle)
            (inv.covered handle (rw⁻¹ (flags-apply s effect handle h k) limited))
            (apply-keeps_funds s lanes effect handle h k done left.0 i j);
      booked = record {
        taken = λ handle. released_taken lanes effect handle l j (inv.booked.taken handle);
        nonneg = left.1;
      };
    }
Step-Inv (rolls_back s lanes effect l j) inv =
    let left = Leaves-All effect l inv.booked.nonneg in
    record {
      covered = λ handle limited.
          stays_covered (funds s lanes handle) (funds s (release lanes effect) handle)
            (inv.covered handle limited)
            (release-keeps_funds s lanes effect handle (reservation_le effect left.0).1 j);
      booked = record {
        taken = λ handle. released_taken lanes effect handle l j (inv.booked.taken handle);
        nonneg = left.1;
      };
    }

Reach-Inv : {b c : Books} → Reach b c → Inv b → Inv c
Reach-Inv here inv = inv
Reach-Inv (next r step) inv = Step-Inv step (Reach-Inv r inv)

of_funds : (w p : ℤ) → pos 0 ≤ℤ w +ℤ (pos 0 -ℤ p) → p ≤ℤ w
of_funds w p h = omega int_laws

paid_of_funds : (w l p : ℤ) → pos 0 ≤ℤ w +ℤ l → l ≡ pos 0 -ℤ p → p ≤ℤ w
paid_of_funds w l p h e = of_funds w p (subst (λ l. pos 0 ≤ℤ w +ℤ l) e h)

funds_of_paid : (w l p : ℤ) → p ≤ℤ w → l ≡ pos 0 -ℤ p → pos 0 ≤ℤ w +ℤ l
funds_of_paid w l p h e = rw e (omega int_laws)

promised_nonneg :
    (waiting : List Effect) (handle : AcctHandle)
    → All (λ e. pos 0 ≤ℤ e.amount) waiting
    → pos 0 ≤ℤ promised waiting handle
unfolding promised
promised_nonneg [] handle all = omega int_laws
promised_nonneg (effect ∷ rest) handle all =
    adds (effect.debit == handle) (reservation effect) (promised rest handle)
      (reservation_le effect all.0).1 (promised_nonneg rest handle all.1)
  where
    adds :
        (own : Bool) (a b : ℤ) → pos 0 ≤ℤ a → pos 0 ≤ℤ b → pos 0 ≤ℤ (if own then a else pos 0) +ℤ b
    adds true a b h k = omega int_laws
    adds false a b h k = omega int_laws

-- No overdraft, for transfers that stand alone and resolutions: from books in which the lanes have taken
-- exactly what waits and every constrained account can pay for it out of its committed columns, after any
-- sequence of judgments, commits and roll backs, each commit and roll back of an effect that was let
-- through and still waits, with open handles, amounts that are not negative and sums that do not wrap: the
-- lanes have taken exactly what waits then, and what a constrained account has in its columns pays for all
-- of it and is not below zero.
pub Reach-IsPaid :
    (b c : Books) (handle : AcctHandle)
    → Reach b c
    → IsBooked b
    → IsPaid b
    → is_constrained (record_of c.accounts handle) ≡ true
    → ((get c.lanes handle).speculative ≡ pos 0 -ℤ promised c.waiting handle)
      × (promised c.waiting handle ≤ℤ worth (record_of c.accounts handle))
      × (pos 0 ≤ℤ worth (record_of c.accounts handle))
unfolding funds IsPaid
Reach-IsPaid b c handle r booked paid limited =
    let inv = Reach-Inv r (record {
      covered = λ at limited.
          funds_of_paid (worth (record_of b.accounts at)) (get b.lanes at).speculative
            (promised b.waiting at) (paid at limited) (booked.taken at);
      booked = booked;
    }) in
    let pays =
      paid_of_funds (worth (record_of c.accounts handle)) (get c.lanes handle).speculative
        (promised c.waiting handle) (inv.covered handle limited) (inv.booked.taken handle) in
    (
      inv.booked.taken handle,
      pays,
      le_trans (promised c.waiting handle) (worth (record_of c.accounts handle))
          (promised_nonneg c.waiting handle inv.booked.nonneg) pays,
    )
  where
    le_trans : (p w : ℤ) → pos 0 ≤ℤ p → p ≤ℤ w → pos 0 ≤ℤ w
    le_trans p w h k = omega int_laws
