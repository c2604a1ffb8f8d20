-- ===== src/Prelude/Words.antt =====
-- Go's int64 as a 64-bit pattern: a number below 2 ^ 64, negative from 2 ^ 63 on.
use Prim.Native.Nat.{ℕ, ◌+◌, ◌-◌, ◌%◌, ◌<◌}
use mathlib.Core.Path.{◌≡◌}
use mathlib.Core.Bool.{Bool, ◌&&◌}
use native.Mathlib.Omega.{arith}
use matrixcube.Prelude.Tests.{ltb}

abbrev pub word : ℕ
word = 18446744073709551616

unfoldable pub add64 : ℕ → ℕ → ℕ
add64 a b = (a + b) % word

unfoldable pub sub64 : ℕ → ℕ → ℕ
sub64 a b = (a + (word - b % word)) % word

-- the signed test `a > n`, for a number `n` that is not negative
unfoldable pub gt64 : ℕ → ℕ → Bool
gt64 a n = ltb a 9223372036854775808 && ltb n a

-- What one side loses and the other gains leaves the sum as it was.
pub add64-sub64 : (a b s : ℕ) → add64 (sub64 a s) (add64 b s) ≡ add64 a b
unfolding add64 sub64
add64-sub64 a b s = omega arith

pub sub64-lt : (a b : ℕ) → sub64 a b < word
unfolding sub64
sub64-lt a b = omega arith

pub add64-lt : (a b : ℕ) → add64 a b < word
unfolding add64
add64-lt a b = omega arith

-- the signed test `a < b`
unfoldable pub lt64 : ℕ → ℕ → Bool
lt64 a b = ltb ((a + 9223372036854775808) % word) ((b + 9223372036854775808) % word)
