-- ===== src/Base/Words.antt =====
-- Machine words as native numbers. An `int` is its 32-bit pattern; signed arithmetic wraps.
use Prim.Native.Nat.{ℕ, ◌+◌, ◌-◌, ◌%◌, ◌^◌}
use mathlib.Core.Bool.{Bool, ◌&&◌}
use mvvmm.Base.Tests.{ltb, leb, if◌then◌else◌}

abbrev pub u8 : ℕ → ℕ
u8 n = n % 2 ^ 8

abbrev pub u16 : ℕ → ℕ
u16 n = n % 2 ^ 16

abbrev pub u32 : ℕ → ℕ
u32 n = n % 2 ^ 32

abbrev pub u64 : ℕ → ℕ
u64 n = n % 2 ^ 64

-- a - b on `uint32_t`, and on `int` patterns. `-` on ℕ is truncated, so the modulus comes first.
abbrev pub sub32 : ℕ → ℕ → ℕ
sub32 a b = (a + 2 ^ 32 - b) % 2 ^ 32

abbrev pub sub64 : ℕ → ℕ → ℕ
sub64 a b = (a + 2 ^ 64 - b) % 2 ^ 64

-- a < b on `int` patterns: the sign bit is turned over and the patterns are compared.
abbrev pub slt : ℕ → ℕ → Bool
slt a b = ltb ((a + 2 ^ 31) % 2 ^ 32) ((b + 2 ^ 31) % 2 ^ 32)

-- x > 0 and x < 0 on `int` patterns.
abbrev pub is_positive : ℕ → Bool
is_positive x = ltb 0 x && ltb x (2 ^ 31)

abbrev pub is_negative : ℕ → Bool
is_negative x = leb (2 ^ 31) x

-- The conversion of an `int` to `uint64_t`.
abbrev pub int_to_u64 : ℕ → ℕ
int_to_u64 x = if ltb x (2 ^ 31) then x else x + (2 ^ 64 - 2 ^ 32)
