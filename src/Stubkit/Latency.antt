-- ===== src/Stubkit/Latency.antt =====
-- stubkit/src/latency.rs: a round trip between two bounds, in nanoseconds.
use my_ledger.Common.{ℕ, ◌+◌, ◌-◌, ◌%◌, ◌^◌, ◌==◌, if◌then◌else◌}
use my_ledger.Base.Prng.{Prng, next_u64}

pub record LatencyRange : Type 0 where
  pub min : ℕ
  pub max : ℕ

-- The span is cut to 64 bits. A span of all of them, on which the code panics, divides by zero.
unfoldable pub sample : LatencyRange → Prng → Prng × ℕ
sample range g =
    let span = (range.max - range.min) % 2 ^ 64 in
    let drawn = next_u64 g in
    if span == 0 then (g, range.min) else (drawn.0, range.min + drawn.1 % (span + 1))

unfoldable pub due_from : LatencyRange → ℕ → Prng → Prng × ℕ
due_from range now g = let drawn = sample range g in (drawn.0, now + drawn.1)
