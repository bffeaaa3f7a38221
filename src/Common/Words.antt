-- ===== src/Common/Words.antt =====
-- int64 values as bit patterns below 2 ^ 64 (two's complement), and the signed comparison.
use Prim.Native.Nat.{ℕ, ◌+◌, ◌-◌, ◌%◌}
use mathlib.Core.Bool.{Bool}
use teller.Common.Tests.{ltb, leb}

abbrev pub u64_mod : ℕ
u64_mod = 18446744073709551616

abbrev pub i64_half : ℕ
i64_half = 9223372036854775808

abbrev pub u32_mod : ℕ
u32_mod = 4294967296

-- a + b and a - b, wrapping.
abbrev pub add_i64 : ℕ → ℕ → ℕ
add_i64 a b = (a + b) % u64_mod

abbrev pub sub_i64 : ℕ → ℕ → ℕ
sub_i64 a b = (a + (u64_mod - b)) % u64_mod

-- The pattern moved so that the signed order is that of ℕ.
abbrev pub bias : ℕ → ℕ
bias a = (a + i64_half) % u64_mod

abbrev pub ltb_i64 : ℕ → ℕ → Bool
ltb_i64 a b = ltb (bias a) (bias b)

abbrev pub leb_i64 : ℕ → ℕ → Bool
leb_i64 a b = leb (bias a) (bias b)
