-- ===== src/Examples/Raft.antt =====
-- raft: three proposals of which the second is refused, over a queue with room for one answer.
use my_ledger.Common.{ℕ, ◌≡◌, refl, true, none, List, [], ◌∷◌, ◌++◌}
use my_ledger.Base.Ports.Raft.{RaftProposal}
use my_ledger.Base.Prng.{prng_new}
use my_ledger.Base.Staged.{sent}
use my_ledger.Stubkit.Gate.{open_gate, let_through}
use my_ledger.Raft.{RaftWorker}
use my_ledger.Raft.Gapless.{
  Event, drains, delivers, gates, run, IsGapless, run-IsGapless, Numbered, last_index,
  committed_effects,
}
use my_ledger.Raft.Order.{held_by, proposed, InOrder, run-held_by}
use my_ledger.Examples.Data.{payment}

abbrev idle_worker : RaftWorker
idle_worker = record {
  log = [];
  keep_log = true;
  commits = record { producer = record { taken = []; room = 1 }; staged = none };
  inflight = [];
  jitter = prng_new 1;
  round_trip = record { min = 5; max = 5 };
  fail_every = 2;
  reorder_every = 0;
  proposals_seen = 0;
  gate = open_gate;
  next_index = 0;
}

abbrev proposal : ℕ → RaftProposal
proposal id = record { batch_id = id; effects = payment ∷ [] }

abbrev three_batches : List Event
three_batches =
    drains ((proposal 1, 0) ∷ (proposal 2, 1) ∷ [])
    ∷ gates (λ g. let_through g 1)
    ∷ delivers 10
    ∷ drains ((proposal 3, 10) ∷ [])
    ∷ gates (λ g. let_through g 5)
    ∷ delivers 20
    ∷ []

idle_worker-IsGapless : IsGapless idle_worker
unfolding sent Numbered last_index committed_effects
idle_worker-IsGapless = record { numbered = tt; last = refl; logged = λ keeps. refl }

run-IsGapless_example : IsGapless (run idle_worker three_batches)
run-IsGapless_example = run-IsGapless idle_worker three_batches idle_worker-IsGapless

idle_worker-InOrder : InOrder idle_worker
unfolding InOrder
idle_worker-InOrder = refl

run-held_by_example :
    held_by (run idle_worker three_batches) ≡ held_by idle_worker ++ proposed three_batches
run-held_by_example = run-held_by idle_worker three_batches idle_worker-InOrder
