-- ===== src/Base/Word.antt =====
-- Go's fixed-width unsigned integers as native numbers. A value of type uintW is a number below
-- 2 ^ W, and an int64 is its two's complement bit pattern, also below 2 ^ 64.
use Prim.Native.Nat.{ℕ, ◌+◌, ◌-◌, ◌*◌, ◌/◌, ◌%◌, ◌^◌}
use m1sim.Base.Test.{ltb, if◌then◌else◌}

-- Conversions: uint32(x), uint16(x) and uint8(x) drop the high bits.
abbrev pub u8 : ℕ → ℕ
u8 x = x % 2 ^ 8

abbrev pub u16 : ℕ → ℕ
u16 x = x % 2 ^ 16

abbrev pub u32 : ℕ → ℕ
u32 x = x % 2 ^ 32

abbrev pub u64 : ℕ → ℕ
u64 x = x % 2 ^ 64

-- x + y and x - y at a width; `-` on ℕ stops at 0, so the modulus is added first.
abbrev pub add64 : ℕ → ℕ → ℕ
add64 x y = (x + y) % 2 ^ 64

abbrev pub sub64 : ℕ → ℕ → ℕ
sub64 x y = (x + 2 ^ 64 - y) % 2 ^ 64

abbrev pub add32 : ℕ → ℕ → ℕ
add32 x y = (x + y) % 2 ^ 32

abbrev pub sub32 : ℕ → ℕ → ℕ
sub32 x y = (x + 2 ^ 32 - y) % 2 ^ 32

-- x >> k on an unsigned value, for every k: from the width on the result is 0.
abbrev pub shr : ℕ → ℕ → ℕ
shr x k = x / 2 ^ k

-- x << k at a width.
abbrev pub shl64 : ℕ → ℕ → ℕ
shl64 x k = (x * 2 ^ k) % 2 ^ 64

abbrev pub shl32 : ℕ → ℕ → ℕ
shl32 x k = (x * 2 ^ k) % 2 ^ 32

-- ^x at a width.
abbrev pub not64 : ℕ → ℕ
not64 x = 2 ^ 64 - 1 - x

abbrev pub not32 : ℕ → ℕ
not32 x = 2 ^ 32 - 1 - x

-- int64(x) >> k and int32(x) >> k: of a negative value, the complement is shifted.
abbrev pub asr64 : ℕ → ℕ → ℕ
asr64 x k = if ltb x (2 ^ 63) then x / 2 ^ k else not64 (not64 x / 2 ^ k)

abbrev pub asr32 : ℕ → ℕ → ℕ
asr32 x k = if ltb x (2 ^ 31) then x / 2 ^ k else not32 (not32 x / 2 ^ k)

-- A two's complement pattern of a narrow type, widened: the bits above are the sign's.
abbrev pub sext8_64 : ℕ → ℕ
sext8_64 x = if ltb x (2 ^ 7) then x else x + (2 ^ 64 - 2 ^ 8)

abbrev pub sext16_64 : ℕ → ℕ
sext16_64 x = if ltb x (2 ^ 15) then x else x + (2 ^ 64 - 2 ^ 16)

abbrev pub sext32_64 : ℕ → ℕ
sext32_64 x = if ltb x (2 ^ 31) then x else x + (2 ^ 64 - 2 ^ 32)

abbrev pub sext8_32 : ℕ → ℕ
sext8_32 x = if ltb x (2 ^ 7) then x else x + (2 ^ 32 - 2 ^ 8)

abbrev pub sext16_32 : ℕ → ℕ
sext16_32 x = if ltb x (2 ^ 15) then x else x + (2 ^ 32 - 2 ^ 16)

-- The bit field (word >> lo) & (2^n - 1). `Bits.field-bit_and` shows the two forms equal.
abbrev pub field : ℕ → ℕ → ℕ → ℕ
field lo n word = word / 2 ^ lo % 2 ^ n
