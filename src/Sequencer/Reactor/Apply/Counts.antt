-- ===== src/Sequencer/Reactor/Apply/Counts.antt =====
-- The effects the accounts have applied are the effects the reactor has counted.
use my_ledger.Common.{
  ℕ, ◌<◌, ◌≡◌, refl, sym, ◌∙◌, ap, arith, ◌⊎◌, Bool, true, false, List, [], ◌∷◌, All, inl, inr,
  if◌then◌else◌, length, inc_word, Option, none, some,
}
use my_ledger.Base.Error.{Result, ok, err}
use my_ledger.Base.Effect.{Effect, pending_effect}
use my_ledger.Base.Ports.Pending.{PendingEffect}
use my_ledger.Base.Protocol.{AckOutcome}
use my_ledger.Account.{MemoryAccounts, move_columns}
use my_ledger.Account
use my_ledger.Account.Columns.{length-after_both, Moved, move_columns-Moved}
use my_ledger.Sequencer.State.Batcher.{SlotId}
use my_ledger.Sequencer.State.Pipeline.{record_at}
use my_ledger.Sequencer.State.Safety.{seal_applies}
use my_ledger.Sequencer.Reactor.{Reactor, finish, settle_overlays, seal}
use my_ledger.Sequencer.Reactor.Apply.{
  commit_batch, commit_one, committed_one, write_owed, hold_amount, count_commit, with_accounts,
}

finish_keeps :
    (r : Reactor) (slot : SlotId) (outcome : AckOutcome)
    → ((finish r slot outcome).metrics ≡ r.metrics)
      × ((finish r slot outcome).accounts ≡ r.accounts)
unfolding finish
finish_keeps r slot outcome = ground arith

settle_keeps :
    (r : Reactor) (effect : Effect)
    → ((settle_overlays r effect).metrics ≡ r.metrics)
      × ((settle_overlays r effect).accounts ≡ r.accounts)
unfolding settle_overlays
settle_keeps r effect = ground arith

-- The check `AccountViewDisagrees` of every tick passes.
unfoldable pub IsCounted : Reactor → Type 0
IsCounted r = r.accounts.applied ≡ r.metrics.committed_count

write_owed_keeps :
    (r : Reactor) (owed : Option PendingEffect) (at : ℕ)
    → ((write_owed r owed at).metrics ≡ r.metrics) × ((write_owed r owed at).accounts ≡ r.accounts)
write_owed_keeps r none at = (refl, refl)
write_owed_keeps r (some effect) at = (refl, refl)

committed_one_keeps :
    (r : Reactor) (effect : Effect) (slot : SlotId) (at : ℕ)
    → ((committed_one r effect slot at).accounts ≡ r.accounts)
      × ((committed_one r effect slot at).metrics.committed_count
          ≡ inc_word 64 r.metrics.committed_count)
unfolding committed_one
committed_one_keeps r effect slot at =
    let settled = settle_overlays r effect in
    let owed = pending_effect effect (hold_amount (record_at settled.pipeline.slots slot)) in
    let written = count_commit (write_owed settled owed at) in
    let ends = finish_keeps written slot AckOutcome.committed in
    let writes = write_owed_keeps settled owed at in
    let settles = settle_keeps r effect in
    (
      ends.1 ∙ writes.1 ∙ settles.1,
      ap (λ m. m.committed_count) ends.0
          ∙ ap (λ m. inc_word 64 m.committed_count) (writes.0 ∙ settles.0),
    )

apply-Moved :
    (s : MemoryAccounts) (effect : Effect)
    → effect.debit < length s.records
    → Moved s effect.debit effect.credit effect (Account.apply s effect)
unfolding Account.apply
apply-Moved s effect h = move_columns-Moved s effect.debit effect.credit effect h

-- How one effect of a batch may end.
One : Reactor → Reactor × Bool → Type 0
One r (r', true) = (r'.safety.applies_sealed ≡ true) × IsCounted r'
One r (r', false) = IsCounted r' × (length r'.accounts.records ≡ length r.accounts.records)

commit_one-One :
    (r : Reactor) (effect : Effect) (slot : SlotId) (at : ℕ)
    → effect.debit < length r.accounts.records
    → IsCounted r
    → One r (commit_one r effect slot at (Account.apply r.accounts effect))
unfolding One IsCounted commit_one seal seal_applies
commit_one-One r effect slot at h counted =
    ended (Account.apply r.accounts effect) (apply-Moved r.accounts effect h)
  where
    ended :
        (m : MemoryAccounts × Result (Unit {0}))
        → Moved r.accounts effect.debit effect.credit effect m
        → One r (commit_one r effect slot at m)
    ended (s, err e) m = (refl, ap (λ a. a.applied) m ∙ counted)
    ended (s, ok _) m =
        let keeps = committed_one_keeps (with_accounts r s) effect slot at in
        (
          ap (λ a. a.applied) (keeps.0 ∙ m.0) ∙ ap (inc_word 64) counted ∙ sym keeps.1,
          ap (λ a. length a.records) (keeps.0 ∙ m.0)
              ∙ length-after_both r.accounts effect.debit effect.credit effect,
        )

One-ends :
    (r : Reactor) (one : Reactor × Bool)
    → One r one
    → IsCounted one.0
      × ((one.1 ≡ true) ⊎ (length one.0.accounts.records ≡ length r.accounts.records))
unfolding One
One-ends r (r', true) o = (o.1, inl refl)
One-ends r (r', false) o = (o.0, inr o.1)

either_counts :
    (b : Bool) (r s : Reactor) → IsCounted r → IsCounted s → IsCounted (if b then r else s)
either_counts true r s h k = h
either_counts false r s h k = k

-- A committed batch keeps the number of effects that the accounts have applied equal to the number that
-- the reactor has counted as committed, also where an effect will not apply and the batch stops there.
pub commit_batch-IsCounted :
    (r : Reactor) (effects : List Effect) (slots : List SlotId) (at : ℕ)
    → All (λ effect. effect.debit < length r.accounts.records) effects
    → IsCounted r
    → IsCounted (commit_batch r effects slots at)
unfolding commit_batch
commit_batch-IsCounted r [] slots at h counted = counted
commit_batch-IsCounted r (effect ∷ effects) [] at h counted = counted
commit_batch-IsCounted r (effect ∷ effects) (slot ∷ slots) at h counted =
    let one = commit_one r effect slot at (Account.apply r.accounts effect) in
    let counts = One-ends r one (commit_one-One r effect slot at h.0 counted) in
    elim counts.1 [
      | inl stops ↦ rw stops counts.0
      | inr same ↦
          either_counts one.1 one.0 (commit_batch one.0 effects slots at) counts.0
            (commit_batch-IsCounted one.0 effects slots at (rw same h.1) counts.0)
    ]
