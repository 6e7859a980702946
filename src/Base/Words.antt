-- ===== src/Base/Words.antt =====
-- The fixed-width integers of the code as native numbers with their wrap-around written out.
-- `usize` is the 64-bit one of the desktop builds.
use Prim.Native.Nat.{ℕ, ◌+◌, ◌-◌, ◌*◌, ◌/◌, ◌%◌, ◌^◌, bit_and}
use mathlib.Core.Bool.{Bool}
use tetanes.Base.Tests.{◌==◌}

abbrev pub u8_mod : ℕ
u8_mod = 2 ^ 8

abbrev pub u16_mod : ℕ
u16_mod = 2 ^ 16

abbrev pub u32_mod : ℕ
u32_mod = 2 ^ 32

abbrev pub usize_mod : ℕ
usize_mod = 2 ^ 64

abbrev pub u8 : ℕ → ℕ
u8 n = n % u8_mod

abbrev pub u16 : ℕ → ℕ
u16 n = n % u16_mod

abbrev pub u32 : ℕ → ℕ
u32 n = n % u32_mod

abbrev pub usize : ℕ → ℕ
usize n = n % usize_mod

-- `a.wrapping_sub(b)` at each width, for `b` in range.
abbrev pub sub_u8 : ℕ → ℕ → ℕ
sub_u8 a b = u8 (a + u8_mod - b)

abbrev pub sub_u16 : ℕ → ℕ → ℕ
sub_u16 a b = u16 (a + u16_mod - b)

abbrev pub sub_u32 : ℕ → ℕ → ℕ
sub_u32 a b = u32 (a + u32_mod - b)

abbrev pub sub_usize : ℕ → ℕ → ℕ
sub_usize a b = usize (a + usize_mod - b)

-- `!a` on 16 bits.
abbrev pub not_u16 : ℕ → ℕ
not_u16 a = u16_mod - 1 - a

infixl 72 ◌<<<◌ ◌>>>◌
abbrev pub ◌<<<◌ : ℕ → ℕ → ℕ
x <<< k = x * 2 ^ k

abbrev pub ◌>>>◌ : ℕ → ℕ → ℕ
x >>> k = x / 2 ^ k

-- `val & m == m`, and `contains` of the bitflags types.
abbrev pub has_bits : ℕ → ℕ → Bool
has_bits val m = bit_and val m == m

-- `u16::from_le_bytes([lo, hi])`.
abbrev pub from_le_bytes : ℕ → ℕ → ℕ
from_le_bytes lo hi = lo + hi * 256
