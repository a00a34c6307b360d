-- ===== src/Base/Int32.antt =====
-- Go's `int32`, kept as its two's complement bit pattern below 2 ^ 32.
use Prim.Native.Nat.{ℕ, ◌+◌, ◌%◌}
use mathlib.Core.Bool.{Bool}
use graphjin_slim.Base.Tests.{leb}

-- 2 ^ 32 and 2 ^ 31
abbrev pub modulus : ℕ
modulus = 4294967296

abbrev pub half : ℕ
half = 2147483648

-- the bit pattern of -1
abbrev pub minus_one : ℕ
minus_one = 4294967295

-- The conversion `int32(n)` of a length, which drops the high bits.
abbrev pub of_int : ℕ → ℕ
of_int n = n % modulus

abbrev pub incr : ℕ → ℕ
incr a = (a + 1) % modulus

abbrev pub is_negative : ℕ → Bool
is_negative a = leb half a

-- `a >= b`, signed: adding 2 ^ 31 turns the signed order into the order of the patterns.
abbrev pub sge : ℕ → ℕ → Bool
sge a b = leb ((b + half) % modulus) ((a + half) % modulus)
