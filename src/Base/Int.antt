-- ===== src/Base/Int.antt =====
-- Signed integers over the native numbers, and the 32-bit ones of the program: a sum that leaves
-- the range wraps round in two's complement.
use Prim.Native.Nat.{ℕ, suc, ◌+◌, ◌-◌, ◌%◌, ◌^◌, ◌≤◌, ◌<◌}
use mathlib.Core.Path.{◌≡◌}
use mathlib.Core.Bool.{Bool}
use native.Mathlib.Omega.{arith}
use etheos.Base.Tests.{ltb, leb, ◌==◌, if◌then◌else◌}

-- `negsuc n` is -(n + 1).
pub data ℤ : Type 0 where
  pos : ℕ → ℤ
  negsuc : ℕ → ℤ

abbrev pub pos_part : ℤ → ℕ
pos_part (pos n) = n
pos_part (negsuc n) = 0

abbrev pub neg_part : ℤ → ℕ
neg_part (pos n) = 0
neg_part (negsuc n) = suc n

abbrev pub sub_ℕ : ℕ → ℕ → ℤ
sub_ℕ a b = if leb b a then pos (a - b) else negsuc (b - a - 1)

infixl 65 ◌+ℤ◌ ◌-ℤ◌
infix 50 ◌≤ℤ◌ ◌<ℤ◌
unfoldable pub ◌+ℤ◌ : ℤ → ℤ → ℤ
a +ℤ b = sub_ℕ (pos_part a + pos_part b) (neg_part a + neg_part b)

unfoldable pub ◌-ℤ◌ : ℤ → ℤ → ℤ
a -ℤ b = sub_ℕ (pos_part a + neg_part b) (neg_part a + pos_part b)

abbrev pub ◌≤ℤ◌ : ℤ → ℤ → Type 0
a ≤ℤ b = pos_part a + neg_part b ≤ pos_part b + neg_part a

abbrev pub ◌<ℤ◌ : ℤ → ℤ → Type 0
a <ℤ b = pos_part a + neg_part b < pos_part b + neg_part a

abbrev pub ltb_ℤ : ℤ → ℤ → Bool
ltb_ℤ a b = ltb (pos_part a + neg_part b) (pos_part b + neg_part a)

abbrev pub leb_ℤ : ℤ → ℤ → Bool
leb_ℤ a b = leb (pos_part a + neg_part b) (pos_part b + neg_part a)

abbrev pub eqb_ℤ : ℤ → ℤ → Bool
eqb_ℤ a b = pos_part a + neg_part b == pos_part b + neg_part a

abbrev pub min_ℤ : ℤ → ℤ → ℤ
min_ℤ a b = if ltb_ℤ b a then b else a

abbrev pub max_ℤ : ℤ → ℤ → ℤ
max_ℤ a b = if ltb_ℤ a b then b else a

-- The 32-bit number with the bit pattern `w`, below 2 ^ 32.
abbrev pub signed32 : ℕ → ℤ
signed32 w = if ltb w (2 ^ 31) then pos w else negsuc (2 ^ 32 - w - 1)

-- The bit pattern of an integer, below 2 ^ 32.
abbrev pub pattern32 : ℤ → ℕ
pattern32 (pos n) = n % 2 ^ 32
pattern32 (negsuc n) = 2 ^ 32 - n % 2 ^ 32 - 1

-- An integer brought into the range of a 32-bit one.
unfoldable pub wrap32 : ℤ → ℤ
wrap32 a = signed32 (pattern32 a)

-- The values of a 32-bit integer.
abbrev pub IsInt32 : ℤ → Type 0
IsInt32 (pos n) = n < 2 ^ 31
IsInt32 (negsuc n) = n < 2 ^ 31

pub wrap32_in_range : (a : ℤ) → IsInt32 (wrap32 a)
unfolding wrap32
wrap32_in_range (pos n) = ground arith
wrap32_in_range (negsuc n) = ground arith

pub wrap32_id : (a : ℤ) → IsInt32 a → wrap32 a ≡ a
unfolding wrap32
wrap32_id (pos n) h = ground arith
wrap32_id (negsuc n) h = ground arith
