-- ===== src/Base/Staged.antt =====
-- base/src/spsc.rs, `StagedProducer`: a producer that keeps the one item its queue refused.
use my_ledger.Common.{
  ◌≡◌, refl, ap, ◌∙◌, Bool, true, false, Option, none, some, List, [], ◌∷◌, ◌++◌, append-nil,
  push_back, is_some, if◌then◌else◌,
}
use my_ledger.Common.Queue
use my_ledger.Common.Queue.{Queue, taken-push}

pub record StagedProducer (A : Type 0) : Type 0 where
  pub producer : Queue A
  pub staged : Option A

module _ {A : Type 0} where
  unfoldable pub is_stuck : StagedProducer A → Bool
  is_stuck s = is_some s.staged

  abbrev pub staged_after : A → Queue A × Bool → StagedProducer A
  staged_after value (q, took) = record { producer = q; staged = if took then none else some value }

  unfoldable pub send : StagedProducer A → A → StagedProducer A
  send s value =
      let pushed = Queue.push s.producer value in
      record { producer = pushed.0; staged = if pushed.1 then s.staged else some value }

  abbrev pub flush_staged : StagedProducer A → Option A → StagedProducer A × Bool
  flush_staged s none = (s, true)
  flush_staged s (some value) =
      let pushed = Queue.push s.producer value in (staged_after value pushed, pushed.1)

  -- True when the stage is clear.
  unfoldable pub flush : StagedProducer A → StagedProducer A × Bool
  flush s = flush_staged s s.staged

  abbrev pub staged_items : Option A → List A
  staged_items none = []
  staged_items (some value) = value ∷ []

  -- All that was sent, in its order.
  unfoldable pub sent : StagedProducer A → List A
  sent s = s.producer.taken ++ staged_items s.staged

  pushed_or_staged :
      (taken : List A) (value : A) (took : Bool)
      → (if took then push_back taken value else taken)
          ++ staged_items (if took then none else some value)
        ≡ push_back taken value
  pushed_or_staged taken value true = append-nil (push_back taken value)
  pushed_or_staged taken value false = refl

  pub sent-send :
      (s : StagedProducer A) (value : A)
      → is_stuck s ≡ false
      → sent (send s value) ≡ push_back (sent s) value
  unfolding is_stuck send sent
  sent-send s value clear = sends s.staged clear
    where
      pushed : Queue A × Bool
      pushed = Queue.push s.producer value

      sends :
          (staged : Option A)
          → is_some staged ≡ false
          → pushed.0.taken ++ staged_items (if pushed.1 then staged else some value)
            ≡ push_back (s.producer.taken ++ staged_items staged) value
      sends (some other) e = absurd (cc e)
      sends none e = rw (append-nil s.producer.taken) (
          ap (λ taken. taken ++ staged_items (if pushed.1 then none else some value))
            (taken-push s.producer value)
          ∙ pushed_or_staged s.producer.taken value pushed.1)

  pub sent-flush : (s : StagedProducer A) → sent (flush s).0 ≡ sent s
  unfolding flush sent
  sent-flush s = flushes s.staged
    where
      flushes :
          (staged : Option A)
          → sent (flush_staged (record s { staged = staged }) staged).0
            ≡ s.producer.taken ++ staged_items staged
      flushes none = refl
      flushes (some value) =
          ap
            (λ taken.
              taken ++ staged_items (if (Queue.push s.producer value).1 then none else some value))
            (taken-push s.producer value)
          ∙ pushed_or_staged s.producer.taken value (Queue.push s.producer value).1
