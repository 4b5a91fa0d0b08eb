-- ===== src/Common/Bits.antt =====
-- Laws of the bitwise operations on numbers of a given width.
use Prim.Native.Nat.{
  ℕ, zero, suc, ◌+◌, ◌*◌, ◌/◌, ◌%◌, ◌^◌, ◌≤◌, ◌<◌, min, bit_and, bit_xor, digits, differ,
  bit_and-bitwise, bit_xor-bitwise,
}
use mathlib.Core.Path.{◌≡◌, refl}
use mathlib.Core.Logic.{◌≢◌}
use native.Mathlib.Omega.{arith}

abbrev xor_digits : ℕ → ℕ → ℕ → ℕ
xor_digits n a b = digits (λ rest. rest) differ n a b

abbrev and_digits : ℕ → ℕ → ℕ → ℕ
and_digits n a b = digits (λ rest. zero) min n a b

xor_digits_enough : (n m a b : ℕ) → a ≤ n → a ≤ m → xor_digits n a b ≡ xor_digits m a b
xor_digits_enough zero zero a b p q = refl
xor_digits_enough zero (suc m) zero b p q = refl
xor_digits_enough zero (suc m) (suc a) b p q = absurd (omega arith)
xor_digits_enough (suc n) zero zero b p q = refl
xor_digits_enough (suc n) zero (suc a) b p q = absurd (omega arith)
xor_digits_enough (suc n) (suc m) zero b p q = refl
xor_digits_enough (suc n) (suc m) (suc a) b p q =
    omega (arith, xor_digits_enough n m (suc a / 2) (b / 2) (omega arith) (omega arith))

and_digits_enough : (n m a b : ℕ) → a ≤ n → a ≤ m → and_digits n a b ≡ and_digits m a b
and_digits_enough zero zero a b p q = refl
and_digits_enough zero (suc m) zero b p q = refl
and_digits_enough zero (suc m) (suc a) b p q = absurd (omega arith)
and_digits_enough (suc n) zero zero b p q = refl
and_digits_enough (suc n) zero (suc a) b p q = absurd (omega arith)
and_digits_enough (suc n) (suc m) zero b p q = refl
and_digits_enough (suc n) (suc m) (suc a) b p q =
    omega (arith, and_digits_enough n m (suc a / 2) (b / 2) (omega arith) (omega arith))

bit_xor-zero : (b : ℕ) → bit_xor 0 b ≡ b
bit_xor-zero b = bit_xor-bitwise 0 b

bit_and-zero : (b : ℕ) → bit_and 0 b ≡ 0
bit_and-zero b = bit_and-bitwise 0 b

-- The lowest digit of each, and the rest.
bit_xor_step : (a b : ℕ) → bit_xor a b ≡ bit_xor (a / 2) (b / 2) * 2 + differ (a % 2) (b % 2)
bit_xor_step zero b = omega (arith, bit_xor-zero b, bit_xor-zero (b / 2))
bit_xor_step (suc a) b = omega (
  arith,
  bit_xor-bitwise (suc a) b,
  bit_xor-bitwise (suc a / 2) (b / 2),
  xor_digits_enough a (suc a / 2) (suc a / 2) (b / 2) (omega arith) (omega arith),
)

bit_and_step : (a b : ℕ) → bit_and a b ≡ bit_and (a / 2) (b / 2) * 2 + min (a % 2) (b % 2)
bit_and_step zero b = omega (arith, bit_and-zero b, bit_and-zero (b / 2))
bit_and_step (suc a) b = omega (
  arith,
  bit_and-bitwise (suc a) b,
  bit_and-bitwise (suc a / 2) (b / 2),
  and_digits_enough a (suc a / 2) (suc a / 2) (b / 2) (omega arith) (omega arith),
)

differ-lt : (x y : ℕ) → x < 2 → y < 2 → differ x y < 2
differ-lt zero y p q = q
differ-lt (suc zero) zero p q = omega arith
differ-lt (suc zero) (suc zero) p q = omega arith
differ-lt (suc (suc x)) y p q = absurd (omega arith)
differ-lt (suc zero) (suc (suc y)) p q = absurd (omega arith)

differ_twice : (x y : ℕ) → x < 2 → y < 2 → differ (differ x y) y ≡ x
differ_twice zero zero p q = refl
differ_twice zero (suc zero) p q = refl
differ_twice (suc zero) zero p q = refl
differ_twice (suc zero) (suc zero) p q = refl
differ_twice (suc (suc x)) y p q = absurd (omega arith)
differ_twice zero (suc (suc y)) p q = absurd (omega arith)
differ_twice (suc zero) (suc (suc y)) p q = absurd (omega arith)

bit_xor_half : (a b : ℕ) → bit_xor a b / 2 ≡ bit_xor (a / 2) (b / 2)
bit_xor_half a b =
    omega (arith, bit_xor_step a b, differ-lt (a % 2) (b % 2) (omega arith) (omega arith))

bit_xor_digit : (a b : ℕ) → bit_xor a b % 2 ≡ differ (a % 2) (b % 2)
bit_xor_digit a b =
    omega (arith, bit_xor_step a b, differ-lt (a % 2) (b % 2) (omega arith) (omega arith))

pub power_pos : (k : ℕ) → 0 < 2 ^ k
power_pos zero = omega arith
power_pos (suc k) = omega (arith, power_pos k)

double : (k : ℕ) → 2 ^ suc k ≡ 2 ^ k * 2
double k = omega arith

-- Exclusive or stays within the width of its arguments.
pub bit_xor-lt : (k a b : ℕ) → a < 2 ^ k → b < 2 ^ k → bit_xor a b < 2 ^ k
bit_xor-lt zero zero zero p q = omega (arith, bit_xor-zero 0)
bit_xor-lt zero (suc a) b p q = absurd (omega arith)
bit_xor-lt zero zero (suc b) p q = absurd (omega arith)
bit_xor-lt (suc k) a b p q = omega (
  arith,
  double k,
  bit_xor_step a b,
  differ-lt (a % 2) (b % 2) (omega arith) (omega arith),
  bit_xor-lt k (a / 2) (b / 2) (omega (arith, double k)) (omega (arith, double k)),
)

bit_and_none : (n a : ℕ) → a ≤ n → bit_and a 0 ≡ 0
bit_and_none n zero h = bit_and-zero 0
bit_and_none zero (suc a) h = absurd (omega arith)
bit_and_none (suc n) (suc a) h =
    omega (arith, bit_and_step (suc a) 0, bit_and_none n (suc a / 2) (omega arith))

pub bit_and-lt : (k a b : ℕ) → b < 2 ^ k → bit_and a b < 2 ^ k
bit_and-lt zero a zero q = omega (arith, bit_and_none a a (omega arith))
bit_and-lt zero a (suc b) q = absurd (omega arith)
bit_and-lt (suc k) a b q =
    omega
      (arith, double k, bit_and_step a b, bit_and-lt k (a / 2) (b / 2) (omega (arith, double k)))

bit_xor_undone : (n a b : ℕ) → a ≤ n → b ≤ n → bit_xor (bit_xor a b) b ≡ a
bit_xor_undone zero zero zero p q = refl
bit_xor_undone zero zero (suc b) p q = absurd (omega arith)
bit_xor_undone zero (suc a) b p q = absurd (omega arith)
bit_xor_undone (suc n) a b p q =
    rw
      (
        bit_xor_step (bit_xor a b) b,
        bit_xor_half a b,
        bit_xor_digit a b,
        differ_twice (a % 2) (b % 2) (omega arith) (omega arith),
        bit_xor_undone n (a / 2) (b / 2) (omega arith) (omega arith),
      )
      (omega arith)

-- What exclusive or with a number does, it undoes.
pub bit_xor_twice : (a b : ℕ) → bit_xor (bit_xor a b) b ≡ a
bit_xor_twice a b = bit_xor_undone (a + b) a b (omega arith) (omega arith)

differ_same : (x y : ℕ) → x < 2 → y < 2 → differ x y ≡ x → y ≡ 0
differ_same zero y p q e = e
differ_same (suc zero) zero p q e = refl
differ_same (suc zero) (suc zero) p q e = absurd (omega arith)
differ_same (suc (suc x)) y p q e = absurd (omega arith)
differ_same (suc zero) (suc (suc y)) p q e = absurd (omega arith)

bit_xor_unmoved : (n a b : ℕ) → b ≤ n → bit_xor a b ≡ a → b ≡ 0
bit_xor_unmoved n a zero h e = refl
bit_xor_unmoved zero a (suc b) h e = absurd (omega arith)
bit_xor_unmoved (suc n) a (suc b) h e = omega (
  arith,
  bit_xor_unmoved n (a / 2) (suc b / 2) (omega arith) (omega (arith, e, bit_xor_half a (suc b))),
  differ_same (a % 2) (suc b % 2) (omega arith) (omega arith)
      (omega (arith, e, bit_xor_digit a (suc b))),
)

-- Only zero leaves a number as it is.
pub bit_xor-ne : (a b : ℕ) → b ≢ 0 → bit_xor a b ≢ a
bit_xor-ne a b other e = other (bit_xor_unmoved b a b (omega arith) e)
