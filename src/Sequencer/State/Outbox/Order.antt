-- ===== src/Sequencer/State/Outbox/Order.antt =====
-- The client is answered in the order the answers were given.
use my_ledger.Common.{
  ℕ, ◌+◌, ◌≡◌, refl, sym, ◌∙◌, arith, List, [], ◌∷◌, ◌++◌, append-nil, append_assoc, Bool, true,
  false,
}
use my_ledger.Common.Queue.{push, taken-push}
use my_ledger.Base.Protocol.{Ack}
use my_ledger.Sequencer.State.Outbox.{Outbox, emit, emit_after, hold_back, flush, flush_acks}

-- The client's side of the queue makes room by reading.
pub data Step : Type 0 where
  emits : Ack → Step
  flushes : Step
  reads : ℕ → Step

unfoldable pub step : Outbox → Step → Outbox
step o (emits ack) = emit o ack
step o flushes = (flush o).0
step o (reads n) = record o { acks = record o.acks { room = o.acks.room + n } }

unfoldable pub run : Outbox → List Step → Outbox
run o [] = o
run o (s ∷ steps) = run (step o s) steps

unfoldable pub emitted : List Step → List Ack
emitted [] = []
emitted (emits ack ∷ steps) = ack ∷ emitted steps
emitted (_ ∷ steps) = emitted steps

-- Every answer so far: those the client's queue took, then those held back.
abbrev pub answers : Outbox → List Ack
answers o = o.acks.taken ++ o.backlog

emit_after-answers :
    (o : Outbox) (backlog : List Ack) (ack : Ack)
    → o.backlog ≡ backlog
    → answers (emit_after o backlog ack) ≡ answers o ++ ack ∷ []
unfolding hold_back
emit_after-answers o [] ack e = ground (
  arith,
  taken-push o.acks ack,
  append_assoc o.acks.taken o.backlog (ack ∷ []),
  append-nil o.acks.taken,
  append-nil (o.acks.taken ++ ack ∷ []),
)
emit_after-answers o (b ∷ rest) ack e = sym (append_assoc o.acks.taken o.backlog (ack ∷ []))

emit-answers : (o : Outbox) (ack : Ack) → answers (emit o ack) ≡ answers o ++ ack ∷ []
unfolding emit
emit-answers o ack = emit_after-answers o o.backlog ack refl

flush_acks-answers :
    (o : Outbox) (backlog : List Ack) (progress : Bool)
    → answers (flush_acks o backlog progress).0 ≡ o.acks.taken ++ backlog
unfolding flush_acks
flush_acks-answers o [] progress = refl
flush_acks-answers o (b ∷ rest) progress = ground (
  arith,
  taken-push o.acks b,
  flush_acks-answers (record o { acks = (push o.acks b).0 }) rest true,
  append_assoc o.acks.taken (b ∷ []) rest,
)

flush-answers : (o : Outbox) → answers (flush o).0 ≡ answers o
unfolding flush
flush-answers o = flush_acks-answers o o.backlog false

step-answers : (o : Outbox) (s : Step) → answers (step o s) ≡ answers o ++ emitted (s ∷ [])
unfolding step emitted
step-answers o (emits ack) = emit-answers o ack
step-answers o flushes = flush-answers o ∙ sym (append-nil (answers o))
step-answers o (reads n) = sym (append-nil (answers o))

emitted-cons :
    (s : Step) (steps : List Step) → emitted (s ∷ steps) ≡ emitted (s ∷ []) ++ emitted steps
unfolding emitted
emitted-cons (emits ack) steps = refl
emitted-cons flushes steps = refl
emitted-cons (reads n) steps = refl

-- However the client's queue fills and drains, no answer is lost, repeated or overtaken: what its queue
-- has taken, followed by what is held back, is every answer given, in the order it was given.
pub run-answers :
    (o : Outbox) (steps : List Step) → answers (run o steps) ≡ answers o ++ emitted steps
unfolding run emitted
run-answers o [] = sym (append-nil (answers o))
run-answers o (s ∷ steps) = ground (
  arith,
  run-answers (step o s) steps,
  step-answers o s,
  emitted-cons s steps,
  append_assoc (answers o) (emitted (s ∷ [])) (emitted steps),
)
