-- ===== src/Pending/Store.antt =====
-- pending/src/block.rs, `DurableStore`: what the tier asks of the store under it.
use my_ledger.Common.{ℕ, Bool, Option, List, replicate}

-- A byte: the segments, then the snapshot's two names.
abbrev pub ObjectId : Type 0
ObjectId = ℕ

-- The bytes of one block.
abbrev pub Block : Type 0
Block = List ℕ

unfoldable pub zeroed : Block
zeroed = replicate 4096 0

pub data StoreFault : Type 0 where
  missing device : StoreFault

-- `Result<_, StoreFault>`.
pub data Outcome (A : Type 0) : Type 0 where
  done : A → Outcome A
  failed : StoreFault → Outcome A

-- A store with the state `S`. A read fills the caller's block, so its answer holds the block.
pub record DurableStore (S : Type 0) : Type 0 where
  pub submit_write : S → ℕ → ObjectId → ℕ → Block → Bool → ℕ → S × Bool
  pub read_at : S → ObjectId → ℕ → S × Outcome Block
  pub submit : S → ℕ → ObjectId → ℕ → ℕ → S × Bool
  pub poll : S → ℕ → S × Option (Outcome (ℕ × Block))
  pub inflight : S → ℕ
  pub submit_remove : S → ℕ → ObjectId → ℕ → S × Bool
  pub submit_rename : S → ℕ → ObjectId → ObjectId → ℕ → S × Bool
