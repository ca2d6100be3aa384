-- ===== src/Base/Word.antt =====
-- The program's signed machine integers as bit patterns: an `int` is a number below 2 ^ 32 and a
-- `short` one below 2 ^ 16, in two's complement, so that sums and differences wrap.
use Prim.Native.Nat.{ℕ, ◌+◌, ◌-◌, ◌%◌, ◌^◌}
use mathlib.Core.Bool.{Bool}
use etheos.Base.Tests.{ltb, leb, if◌then◌else◌}

abbrev pub add32 : ℕ → ℕ → ℕ
add32 a b = (a + b) % 2 ^ 32

abbrev pub sub32 : ℕ → ℕ → ℕ
sub32 a b = (a + 2 ^ 32 - b) % 2 ^ 32

abbrev pub is_negative : ℕ → Bool
is_negative a = leb (2 ^ 31) a

-- `a < b`: adding 2 ^ 31 brings the negative ones below the others.
abbrev pub lt32 : ℕ → ℕ → Bool
lt32 a b = ltb ((a + 2 ^ 31) % 2 ^ 32) ((b + 2 ^ 31) % 2 ^ 32)

abbrev pub le32 : ℕ → ℕ → Bool
le32 a b = leb ((a + 2 ^ 31) % 2 ^ 32) ((b + 2 ^ 31) % 2 ^ 32)

-- `std::min` and `std::max`.
abbrev pub min32 : ℕ → ℕ → ℕ
min32 a b = if lt32 b a then b else a

abbrev pub max32 : ℕ → ℕ → ℕ
max32 a b = if lt32 a b then b else a

-- A `short` moved up by 2 ^ 15, so that the order of the results is the order of the shorts.
abbrev pub shifted16 : ℕ → ℕ
shifted16 a = (a + 2 ^ 15) % 2 ^ 16
