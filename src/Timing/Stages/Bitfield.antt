-- ===== src/Timing/Stages/Bitfield.antt =====
-- timing/pipeline/stages.go: the bit-field moves of the execute stage, apart from the emulator's.
use m1sim.Base.{
  ℕ, Bool, false, ◌+◌, ◌-◌, ◌^◌, ◌&&◌, ◌==◌, leb, ltb, if◌then◌else◌, u32, shr, shl64, shl32, not64,
  sub64, sub32, bit_and, bit_or,
}
use m1sim.Insts.{Instruction}

-- `^uint64(0) << width`, and the uint32 form.
abbrev pub ones64 : ℕ → ℕ
ones64 width = shl64 (2 ^ 64 - 1) width

abbrev pub ones32 : ℕ → ℕ
ones32 width = shl32 (2 ^ 32 - 1) width

-- The branch `imms < immr`: the field is shifted up and down again.
unfoldable pub low_field : Instruction → ℕ → Bool → ℕ
low_field i rn signed =
    let width = i.imm2 + 1 in
    let field =
      if i.is_64bit
      then bit_and rn (sub64 (shl64 1 width) 1)
      else bit_and rn (sub32 (shl32 1 width) 1) in
    let shift = sub64 (if i.is_64bit then 64 else 32) i.imm in
    let result = shr (shl64 field shift) shift in
    if signed && bit_and (shr field (width - 1)) 1 == 1
    then (if i.is_64bit then bit_or field (ones64 width) else bit_or (u32 field) (ones32 width))
    else result

-- `(rn >> immr) | (rn << (bits - immr))` for immr > 0.
unfoldable pub rotated : Instruction → ℕ → ℕ
rotated i rn =
    if ltb 0 i.imm
    then (if i.is_64bit
        then bit_or (shr rn i.imm) (shl64 rn (sub64 64 i.imm))
        else bit_or (shr (u32 rn) i.imm) (shl32 (u32 rn) (sub64 32 i.imm)))
    else rn

-- The branch `immr <= imms`: rotate, mask and extend.
unfoldable pub high_field : Instruction → ℕ → Bool → ℕ
unfolding rotated
high_field i rn signed =
    let bits = if i.is_64bit then 64 else 32 in
    let width = i.imm2 - i.imm + 1 in
    let mask = if leb bits width then 2 ^ 64 - 1 else sub64 (shl64 1 width) 1 in
    let result = bit_and (rotated i rn) mask in
    let extended =
      if signed && bit_and (shr result (width - 1)) 1 == 1
      then (if i.is_64bit then bit_or result (ones64 width) else bit_or (u32 result) (ones32 width))
      else result in
    if i.is_64bit then extended else u32 extended

unfoldable pub execute_bitfield : Instruction → ℕ → Bool → ℕ
unfolding low_field high_field
execute_bitfield i rn_value signed =
    let rn = if i.is_64bit then rn_value else u32 rn_value in
    if ltb i.imm2 i.imm then low_field i rn signed else high_field i rn signed

unfoldable pub execute_bfm : Instruction → ℕ → ℕ → ℕ
execute_bfm i rn_value rd_value =
    let result = execute_bitfield i rn_value false in
    let width = i.imm2 - i.imm + 1 in
    let mask = if leb 64 width then 2 ^ 64 - 1 else sub64 (shl64 1 width) 1 in
    if leb i.imm i.imm2
    then bit_or (bit_and rd_value (not64 mask)) (bit_and result mask)
    else result
