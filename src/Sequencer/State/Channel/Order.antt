-- ===== src/Sequencer/State/Channel/Order.antt =====
-- The pending engine is handed the committed decisions in the order they were committed.
use my_ledger.Common.{
  ℕ, ◌+◌, ◌≡◌, refl, sym, ◌∙◌, ap, arith, List, [], ◌∷◌, ◌++◌, append-nil, append_assoc, Bool, true,
  false, if◌then◌else◌,
}
use my_ledger.Common.Queue.{push, taken-push}
use my_ledger.Base.Ids.{TxId}
use my_ledger.Base.Ports.Pending.{
  PendingCommand, PendingEffect, PendingLookup, PendingFence, lookup_command, fence_command,
  apply_command, expiry_declined,
}
use my_ledger.Pending.Port.{MemoryPending, send, after_send}
use my_ledger.Sequencer.State.Channel.{
  PendingChannel, Write, write, write_after, keep_write, sent_write, flush, flush_writes,
  drain_declines, offer_declines, decline_expiry, decline_after, lookup, fence,
}

-- The engine makes room by taking commands off the queue.
pub data Step : Type 0 where
  writes_effect : PendingEffect → ℕ → Step
  flushes : Step
  declines_expiry : TxId → Step
  looks_up : PendingLookup → Step
  fences : PendingFence → Step
  engine_takes : ℕ → Step

unfoldable pub step : PendingChannel → Step → PendingChannel
step ch (writes_effect effect at) = write ch effect at
step ch flushes = (flush ch).0
step ch (declines_expiry hold) = decline_expiry ch hold
step ch (looks_up ask) = (lookup ch ask).0
step ch (fences ask) = (fence ch ask).0
step ch (engine_takes n) = record ch {
  port = record ch.port { commands = record ch.port.commands { room = ch.port.commands.room + n } };
}

unfoldable pub run : PendingChannel → List Step → PendingChannel
run ch [] = ch
run ch (s ∷ steps) = run (step ch s) steps

unfoldable pub written : List Step → List Write
written [] = []
written (writes_effect effect at ∷ steps) = (effect, at) ∷ written steps
written (_ ∷ steps) = written steps

unfoldable pub applies_of : List PendingCommand → List Write
applies_of [] = []
applies_of (apply_command effect at ∷ commands) = (effect, at) ∷ applies_of commands
applies_of (_ ∷ commands) = applies_of commands

-- The decisions the engine's queue has taken, then those still held back.
abbrev pub decisions : PendingChannel → List Write
decisions ch = applies_of ch.port.commands.taken ++ ch.writes

applies_of-append :
    (xs ys : List PendingCommand) → applies_of (xs ++ ys) ≡ applies_of xs ++ applies_of ys
unfolding applies_of
applies_of-append [] ys = refl
applies_of-append (apply_command effect at ∷ xs) ys =
    ap (◌∷◌ (effect, at)) (applies_of-append xs ys)
applies_of-append (lookup_command ask ∷ xs) ys = applies_of-append xs ys
applies_of-append (fence_command ask ∷ xs) ys = applies_of-append xs ys
applies_of-append (expiry_declined ask ∷ xs) ys = applies_of-append xs ys

commands-after_send :
    (p : MemoryPending) (c : PendingCommand) → (after_send p c).commands ≡ p.commands
unfolding after_send
commands-after_send p (apply_command effect at) = refl
commands-after_send p (lookup_command ask) = refl
commands-after_send p (fence_command ask) = refl
commands-after_send p (expiry_declined ask) = refl

taken-send :
    (p : MemoryPending) (c : PendingCommand)
    → applies_of (send p c).0.commands.taken ≡ (
        if (send p c).1
        then applies_of p.commands.taken ++ applies_of (c ∷ [])
        else applies_of p.commands.taken)
unfolding send
taken-send p c = ground (
  arith,
  taken-push p.commands c,
  applies_of-append p.commands.taken (c ∷ []),
  commands-after_send (record p { commands = (push p.commands c).0 }) c,
)

write_after-decisions :
    (ch : PendingChannel) (writes : List Write) (w : Write)
    → ch.writes ≡ writes
    → decisions (write_after ch writes w) ≡ decisions ch ++ w ∷ []
unfolding keep_write applies_of
write_after-decisions ch [] w e = ground (
  arith,
  taken-send ch.port (apply_command w.0 w.1),
  append-nil (applies_of ch.port.commands.taken),
  append-nil (applies_of ch.port.commands.taken ++ w ∷ []),
)
write_after-decisions ch (b ∷ rest) w e =
    sym (append_assoc (applies_of ch.port.commands.taken) ch.writes (w ∷ []))

flush_writes-decisions :
    (ch : PendingChannel) (writes : List Write) (progress : Bool)
    → decisions (flush_writes ch writes progress).0 ≡ applies_of ch.port.commands.taken ++ writes
unfolding flush_writes applies_of
flush_writes-decisions ch [] progress = refl
flush_writes-decisions ch (w ∷ rest) progress = ground (
  arith,
  taken-send ch.port (apply_command w.0 w.1),
  flush_writes-decisions (sent_write ch (send ch.port (apply_command w.0 w.1)).0) rest true,
  append_assoc (applies_of ch.port.commands.taken) (w ∷ []) rest,
)

offer_declines-decisions :
    (ch : PendingChannel) (holds : List TxId) (progress : Bool)
    → decisions (offer_declines ch holds progress).0 ≡ decisions ch
unfolding offer_declines applies_of
offer_declines-decisions ch [] progress = refl
offer_declines-decisions ch (hold ∷ rest) progress = ground (
  arith,
  taken-send ch.port (expiry_declined hold),
  append-nil (applies_of ch.port.commands.taken),
  offer_declines-decisions (record ch { port = (send ch.port (expiry_declined hold)).0 }) rest true,
)

flush-decisions : (ch : PendingChannel) → decisions (flush ch).0 ≡ decisions ch
unfolding flush drain_declines
flush-decisions ch =
    let written = (flush_writes ch ch.writes false).0 in
    offer_declines-decisions written written.declines false
    ∙ flush_writes-decisions ch ch.writes false

decline_after-decisions :
    (ch : PendingChannel) (declines : List TxId) (hold : TxId)
    → decisions (decline_after ch declines hold) ≡ decisions ch
unfolding applies_of
decline_after-decisions ch [] hold = ground (
  arith,
  taken-send ch.port (expiry_declined hold),
  append-nil (applies_of ch.port.commands.taken),
)
decline_after-decisions ch (_ ∷ _) hold = refl

step-decisions :
    (ch : PendingChannel) (s : Step) → decisions (step ch s) ≡ decisions ch ++ written (s ∷ [])
unfolding step written write decline_expiry lookup fence applies_of
step-decisions ch (writes_effect effect at) = write_after-decisions ch ch.writes (effect, at) refl
step-decisions ch flushes = flush-decisions ch ∙ sym (append-nil (decisions ch))
step-decisions ch (declines_expiry hold) =
    decline_after-decisions ch ch.declines hold ∙ sym (append-nil (decisions ch))
step-decisions ch (looks_up ask) = ground (
  arith,
  taken-send ch.port (lookup_command ask),
  append-nil (applies_of ch.port.commands.taken),
  append-nil (decisions ch),
)
step-decisions ch (fences ask) = ground (
  arith,
  taken-send ch.port (fence_command ask),
  append-nil (applies_of ch.port.commands.taken),
  append-nil (decisions ch),
)
step-decisions ch (engine_takes n) = sym (append-nil (decisions ch))

written-cons :
    (s : Step) (steps : List Step) → written (s ∷ steps) ≡ written (s ∷ []) ++ written steps
unfolding written
written-cons (writes_effect effect at) steps = refl
written-cons flushes steps = refl
written-cons (declines_expiry _) steps = refl
written-cons (looks_up _) steps = refl
written-cons (fences _) steps = refl
written-cons (engine_takes n) steps = refl

-- However full the engine's queue gets, no committed decision is lost, repeated or overtaken by another:
-- the decisions its queue has taken, followed by those held back, are the decisions written, in order.
pub run-decisions :
    (ch : PendingChannel) (steps : List Step)
    → decisions (run ch steps) ≡ decisions ch ++ written steps
unfolding run written
run-decisions ch [] = sym (append-nil (decisions ch))
run-decisions ch (s ∷ steps) = ground (
  arith,
  run-decisions (step ch s) steps,
  step-decisions ch s,
  written-cons s steps,
  append_assoc (decisions ch) (written (s ∷ [])) (written steps),
)
