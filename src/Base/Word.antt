-- ===== src/Base/Word.antt =====
-- Words of C as numbers: casts, single bits, sign extension and the signed reading of a word.
-- A word of w bits is a number below 2 ^ w. `x >> k` is `x / 2 ^ k`, `x & (2 ^ k - 1)` is
-- `x % 2 ^ k`, and a mask of neighbouring bits is written by both.
use Prim.Native.Nat.{ℕ, ◌+◌, ◌-◌, ◌/◌, ◌%◌, ◌^◌}
use mathlib.Core.Bool.{Bool}
use cmips_cen.Base.Tests.{ltb, ◌==◌, if◌then◌else◌}

abbrev pub u8 : ℕ → ℕ
u8 x = x % 2 ^ 8

abbrev pub u16 : ℕ → ℕ
u16 x = x % 2 ^ 16

abbrev pub u32 : ℕ → ℕ
u32 x = x % 2 ^ 32

abbrev pub u64 : ℕ → ℕ
u64 x = x % 2 ^ 64

-- a - b on uint32_t and uint64_t
abbrev pub sub32 : ℕ → ℕ → ℕ
sub32 a b = (a + 2 ^ 32 - b) % 2 ^ 32

abbrev pub sub64 : ℕ → ℕ → ℕ
sub64 a b = (a + 2 ^ 64 - b) % 2 ^ 64

-- `(x >> lo) & (2 ^ width - 1)`
abbrev pub field : ℕ → ℕ → ℕ → ℕ
field lo width x = x / 2 ^ lo % 2 ^ width

-- `x & (1 << k)` as a condition
unfoldable pub bit : ℕ → ℕ → Bool
bit k x = x / 2 ^ k % 2 == 1

-- `x | (1 << k)`
unfoldable pub set_bit : ℕ → ℕ → ℕ
set_bit k x = if bit k x then x else x + 2 ^ k

-- `x & ~(1 << k)`
unfoldable pub clear_bit : ℕ → ℕ → ℕ
clear_bit k x = if bit k x then x - 2 ^ k else x

-- `(int16_t) x`, as the 32-bit and as the 64-bit pattern
abbrev pub sext16 : ℕ → ℕ
sext16 x = if ltb (x % 2 ^ 16) (2 ^ 15) then x % 2 ^ 16 else x % 2 ^ 16 + (2 ^ 32 - 2 ^ 16)

abbrev pub sext8 : ℕ → ℕ
sext8 x = if ltb (x % 2 ^ 8) (2 ^ 7) then x % 2 ^ 8 else x % 2 ^ 8 + (2 ^ 32 - 2 ^ 8)

-- `(int64_t) (int32_t) x`
abbrev pub sext32_64 : ℕ → ℕ
sext32_64 x = if ltb (x % 2 ^ 32) (2 ^ 31) then x % 2 ^ 32 else x % 2 ^ 32 + (2 ^ 64 - 2 ^ 32)

-- `(int32_t) a < (int32_t) b`: adding 2 ^ 31 turns the signed order into the unsigned one.
abbrev pub lt_s32 : ℕ → ℕ → Bool
lt_s32 a b = ltb ((a + 2 ^ 31) % 2 ^ 32) ((b + 2 ^ 31) % 2 ^ 32)
