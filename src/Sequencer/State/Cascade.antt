-- ===== src/Sequencer/State/Cascade.antt =====
-- sequencer/src/state/cascade.rs: the slots a chain gate has freed. The last one pushed comes first.
use my_ledger.Common.{Bool, true, false, not, Option, none, some, List, [], ◌∷◌}
use my_ledger.Sequencer.State.Batcher.{SlotId}

pub record Cascade : Type 0 where
  pub ready : List SlotId
  pub running : Bool

abbrev pub new_cascade : Cascade
new_cascade = record { ready = []; running = false }

unfoldable pub push : Cascade → SlotId → Cascade
push c slot = record c { ready = slot ∷ c.ready }

unfoldable pub enter : Cascade → Cascade × Bool
enter c = (record c { running = true }, not c.running)

abbrev next_from : Cascade → List SlotId → Cascade × Option SlotId
next_from c [] = (c, none)
next_from c (slot ∷ rest) = (record c { ready = rest }, some slot)

unfoldable pub next : Cascade → Cascade × Option SlotId
next c = next_from c c.ready

unfoldable pub leave : Cascade → Cascade
leave c = record c { running = false }
