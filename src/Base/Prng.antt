-- ===== src/Base/Prng.antt =====
-- base/src/prng.rs: the generator, without the draws that are floating-point numbers.
use Prim.Native.Nat.{bit_xor, bit_or}
use my_ledger.Common.{ℕ, ◌*◌, ◌/◌, ◌%◌, ◌^◌}

pub record Prng : Type 0 where
  pub state : ℕ

-- `Prng::new`.
unfoldable pub prng_new : ℕ → Prng
prng_new seed = record {
  state = bit_or (bit_xor (seed * 0x9E3779B97F4A7C15 % 2 ^ 64) 0x5DEECE66D5AA1234) 1;
}

shift_left : ℕ → ℕ → ℕ
shift_left n by = n * 2 ^ by % 2 ^ 64

-- The generator afterwards, and the number drawn.
unfoldable pub next_u64 : Prng → Prng × ℕ
unfolding shift_left
next_u64 g =
    let a = bit_xor g.state (shift_left g.state 13) in
    let b = bit_xor a (a / 2 ^ 7) in
    let c = bit_xor b (shift_left b 17) in (record { state = c }, c)
