-- ===== src/Prelude/Int.antt =====
-- Signed integers over the native numbers, with what Go's int64 and uint32 do: conversions wrap, the
-- quotient is cut towards zero, and >> rounds down.
use Prim.Native.Nat.{ℕ, zero, suc, ◌-◌, ◌/◌, ◌%◌}
use micrun.Prelude.Tests.{ltb, if◌then◌else◌}

-- `negsuc n` is -(n + 1).
pub data ℤ : Type 0 where
  pos : ℕ → ℤ
  negsuc : ℕ → ℤ

abbrev pub neg : ℕ → ℤ
neg zero = pos 0
neg (suc n) = negsuc n

-- uint32(n)
abbrev pub u32 : ℕ → ℕ
u32 n = n % 4294967296

-- uint64(n)
abbrev pub u64 : ℕ → ℕ
u64 n = n % 18446744073709551616

-- int64(n) of a number in 64 bits.
abbrev pub signed : ℕ → ℤ
signed n = if ltb n 9223372036854775808 then pos n else negsuc (18446744073709551615 - n)

-- int64(n)
abbrev pub int64 : ℕ → ℤ
int64 n = signed (u64 n)

-- a / b of int64
abbrev pub quot : ℤ → ℤ → ℤ
quot (pos a) (pos b) = pos (a / b)
quot (pos a) (negsuc b) = neg (a / suc b)
quot (negsuc a) (pos b) = neg (suc a / b)
quot (negsuc a) (negsuc b) = pos (suc a / suc b)

-- uint32(z)
abbrev pub u32_of : ℤ → ℕ
u32_of (pos n) = u32 n
u32_of (negsuc n) = 4294967295 - u32 n

-- z >> 20
abbrev pub shift20 : ℤ → ℤ
shift20 (pos n) = pos (n / 1048576)
shift20 (negsuc n) = negsuc (n / 1048576)
