-- ===== src/Common/Bytes.antt =====
-- `to_le_bytes` and `from_le_bytes` of unsigned and signed words.
use my_ledger.Common.Tests.{ltb, if◌then◌else◌}
use my_ledger.Common.Int.{ℤ, pos, negsuc, IsI64}
use my_ledger.Common.Lists.{length, take, drop}
use Prim.Native.Nat.{ℕ, zero, suc, ◌+◌, ◌-◌, ◌*◌, ◌/◌, ◌%◌, ◌^◌, ◌<◌}
use mathlib.Core.Path.{◌≡◌, refl, ap}
use mathlib.Core.List.{List, [], ◌∷◌, ◌++◌}
use native.Mathlib.Omega.{arith}

-- The lowest byte first.
unfoldable pub to_le : ℕ → ℕ → List ℕ
to_le zero n = []
to_le (suc width) n = n % 2 ^ 8 ∷ to_le width (n / 2 ^ 8)

unfoldable pub from_le : List ℕ → ℕ
from_le [] = 0
from_le (b ∷ bytes) = b + from_le bytes * 2 ^ 8

-- An `i64` as the word with the same bits, and back.
unfoldable pub word_of_i64 : ℤ → ℕ
word_of_i64 (pos n) = n % 2 ^ 64
word_of_i64 (negsuc n) = 2 ^ 64 - 1 - n % 2 ^ 64

unfoldable pub i64_of_word : ℕ → ℤ
i64_of_word w = if ltb w (2 ^ 63) then pos w else negsuc (2 ^ 64 - 1 - w)

pub length-to_le : (width n : ℕ) → length (to_le width n) ≡ width
unfolding to_le
length-to_le zero n = refl
length-to_le (suc width) n = ap suc (length-to_le width (n / 2 ^ 8))

times_byte : (width : ℕ) → 256 ^ suc width ≡ 256 ^ width * 256
times_byte width = omega arith

-- A number that fits the width is read back.
pub from_le-to_le : (width n : ℕ) → n < 256 ^ width → from_le (to_le width n) ≡ n
unfolding to_le from_le
from_le-to_le zero n h = omega arith
from_le-to_le (suc width) n h =
    omega (arith, from_le-to_le width (n / 2 ^ 8) (omega (arith, times_byte width)))

pub i64_of_word-word_of_i64 : (a : ℤ) → IsI64 a → i64_of_word (word_of_i64 a) ≡ a
unfolding word_of_i64 i64_of_word
i64_of_word-word_of_i64 (pos n) h = ground arith
i64_of_word-word_of_i64 (negsuc n) h = ground arith

pub word_of_i64-lt : (a : ℤ) → word_of_i64 a < 2 ^ 64
unfolding word_of_i64
word_of_i64-lt (pos n) = omega arith
word_of_i64-lt (negsuc n) = omega arith

pub take-to_le : (width n : ℕ) (rest : List ℕ) → take width (to_le width n ++ rest) ≡ to_le width n
unfolding to_le
take-to_le zero n rest = refl
take-to_le (suc width) n rest = ap (◌∷◌ (n % 2 ^ 8)) (take-to_le width (n / 2 ^ 8) rest)

pub drop-to_le : (width n : ℕ) (rest : List ℕ) → drop width (to_le width n ++ rest) ≡ rest
unfolding to_le
drop-to_le zero n rest = refl
drop-to_le (suc width) n rest = drop-to_le width (n / 2 ^ 8) rest
