-- ===== src/Emu/SimdRegFile.antt =====
-- emu/simd_regfile.go: the 32 vector registers, each a pair of 64-bit halves, seen as lanes.
use m1sim.Base.{
  ℕ, ◌-◌, ◌*◌, ◌==◌, ◌&&◌, ltb, if◌then◌else◌, u8, u16, u32, shr, shl64, not64, bit_and, bit_or,
}

-- `V [32][2]uint64`, by register number and half (0 is the low one).
abbrev pub SimdRegFile : Type 0
SimdRegFile = ℕ → ℕ → ℕ

abbrev pub zero_simd : SimdRegFile
zero_simd reg half = 0

abbrev pub set_half : ℕ → ℕ → ℕ → SimdRegFile → SimdRegFile
set_half reg half value v r h = if r == reg && h == half then value else v r h

unfoldable pub read_q : ℕ → SimdRegFile → ℕ × ℕ
read_q reg v = (v reg 0, v reg 1)

unfoldable pub write_q : ℕ → ℕ → ℕ → SimdRegFile → SimdRegFile
write_q reg low high v = set_half reg 1 high (set_half reg 0 low v)

unfoldable pub read_d : ℕ → SimdRegFile → ℕ
read_d reg v = v reg 0

unfoldable pub write_d : ℕ → ℕ → SimdRegFile → SimdRegFile
write_d reg value v = set_half reg 1 0 (set_half reg 0 value v)

unfoldable pub read_s : ℕ → SimdRegFile → ℕ
read_s reg v = u32 (v reg 0)

unfoldable pub write_s : ℕ → ℕ → SimdRegFile → SimdRegFile
write_s reg value v = set_half reg 1 0 (set_half reg 0 value v)

-- `(old &^ (ones << at)) | (value << at)`
abbrev pub insert_bits : ℕ → ℕ → ℕ → ℕ → ℕ
insert_bits ones at value old = bit_or (bit_and old (not64 (shl64 ones at))) (shl64 value at)

unfoldable pub read_lane8 : ℕ → ℕ → SimdRegFile → ℕ
read_lane8 reg lane v =
    if ltb lane 8 then u8 (shr (v reg 0) (lane * 8)) else u8 (shr (v reg 1) ((lane - 8) * 8))

unfoldable pub write_lane8 : ℕ → ℕ → ℕ → SimdRegFile → SimdRegFile
write_lane8 reg lane value v =
    if ltb lane 8
    then set_half reg 0 (insert_bits 0xFF (lane * 8) value (v reg 0)) v
    else set_half reg 1 (insert_bits 0xFF ((lane - 8) * 8) value (v reg 1)) v

unfoldable pub read_lane16 : ℕ → ℕ → SimdRegFile → ℕ
read_lane16 reg lane v =
    if ltb lane 4 then u16 (shr (v reg 0) (lane * 16)) else u16 (shr (v reg 1) ((lane - 4) * 16))

unfoldable pub write_lane16 : ℕ → ℕ → ℕ → SimdRegFile → SimdRegFile
write_lane16 reg lane value v =
    if ltb lane 4
    then set_half reg 0 (insert_bits 0xFFFF (lane * 16) value (v reg 0)) v
    else set_half reg 1 (insert_bits 0xFFFF ((lane - 4) * 16) value (v reg 1)) v

unfoldable pub read_lane32 : ℕ → ℕ → SimdRegFile → ℕ
read_lane32 reg lane v =
    if ltb lane 2 then u32 (shr (v reg 0) (lane * 32)) else u32 (shr (v reg 1) ((lane - 2) * 32))

unfoldable pub write_lane32 : ℕ → ℕ → ℕ → SimdRegFile → SimdRegFile
write_lane32 reg lane value v =
    if ltb lane 2
    then set_half reg 0 (insert_bits 0xFFFFFFFF (lane * 32) value (v reg 0)) v
    else set_half reg 1 (insert_bits 0xFFFFFFFF ((lane - 2) * 32) value (v reg 1)) v

unfoldable pub read_lane64 : ℕ → ℕ → SimdRegFile → ℕ
read_lane64 reg lane v = v reg lane

unfoldable pub write_lane64 : ℕ → ℕ → ℕ → SimdRegFile → SimdRegFile
write_lane64 reg lane value v = set_half reg lane value v

unfoldable pub clear : SimdRegFile → SimdRegFile
clear v = zero_simd
