-- ===== src/Emu/Exec/Bitfield.antt =====
-- emu/emulator.go: bit fields and EXTR. `immr` and `imms` are uint32 values.
use m1sim.Base.{
  ℕ, ◌+◌, ◌-◌, ◌==◌, leb, if◌then◌else◌, u32, shr, shl64, shl32, not64, not32, sub64, sub32,
  bit_and, bit_or,
}
use m1sim.Insts.{Op, Instruction}
use m1sim.Emu.RegFile.{RegFile, read_reg, write_reg}

-- `(1 << width) - 1`
abbrev pub mask64 : ℕ → ℕ
mask64 width = sub64 (shl64 1 width) 1

-- `if extracted & signBit != 0 { extracted |= ^mask }`
unfoldable pub extend64 : ℕ → ℕ → ℕ
extend64 width extracted =
    if bit_and extracted (shl64 1 (width - 1)) == 0
    then extracted
    else bit_or extracted (not64 (mask64 width))

unfoldable pub ubfm64 : ℕ → ℕ → ℕ → ℕ
ubfm64 immr imms rn =
    if leb immr imms
    then bit_and (shr rn immr) (mask64 (imms - immr + 1))
    else shl64 (bit_and rn (mask64 (imms + 1))) (sub32 64 immr)

unfoldable pub sbfm64 : ℕ → ℕ → ℕ → ℕ
unfolding extend64
sbfm64 immr imms rn =
    let low = imms + 1 in
    let width = imms - immr + 1 in
    if leb immr imms
    then extend64 width (bit_and (shr rn immr) (mask64 width))
    else shl64 (extend64 low (bit_and rn (mask64 low))) (sub32 64 immr)

unfoldable pub bfm64 : ℕ → ℕ → ℕ → ℕ → ℕ
bfm64 immr imms rn rd =
    let src_mask = mask64 (imms - immr + 1) in
    let low_mask = mask64 (imms + 1) in
    let shift = sub32 64 immr in
    if leb immr imms
    then bit_or (bit_and rd (not64 src_mask)) (bit_and (shr rn immr) src_mask)
    else bit_or (bit_and rd (not64 (shl64 low_mask shift))) (shl64 (bit_and rn low_mask) shift)

-- `(1 << width) - 1`
abbrev pub mask32 : ℕ → ℕ
mask32 width = sub32 (shl32 1 width) 1

-- `if extracted & signBit != 0 { extracted |= ^mask }`
unfoldable pub extend32 : ℕ → ℕ → ℕ
extend32 width extracted =
    if bit_and extracted (shl32 1 (width - 1)) == 0
    then extracted
    else bit_or extracted (not32 (mask32 width))

unfoldable pub ubfm32 : ℕ → ℕ → ℕ → ℕ
ubfm32 immr imms rn =
    if leb immr imms
    then bit_and (shr rn immr) (mask32 (imms - immr + 1))
    else shl32 (bit_and rn (mask32 (imms + 1))) (sub32 32 immr)

unfoldable pub sbfm32 : ℕ → ℕ → ℕ → ℕ
unfolding extend32
sbfm32 immr imms rn =
    let low = imms + 1 in
    let width = imms - immr + 1 in
    if leb immr imms
    then extend32 width (bit_and (shr rn immr) (mask32 width))
    else shl32 (extend32 low (bit_and rn (mask32 low))) (sub32 32 immr)

unfoldable pub bfm32 : ℕ → ℕ → ℕ → ℕ → ℕ
bfm32 immr imms rn rd =
    let src_mask = mask32 (imms - immr + 1) in
    let low_mask = mask32 (imms + 1) in
    let shift = sub32 32 immr in
    if leb immr imms
    then bit_or (bit_and rd (not32 src_mask)) (bit_and (shr rn immr) src_mask)
    else bit_or (bit_and rd (not32 (shl32 low_mask shift))) (shl32 (bit_and rn low_mask) shift)

unfoldable pub execute_bitfield : Instruction → RegFile → RegFile
execute_bitfield i r =
    let rn_val = read_reg i.rn r in
    let rd_val = read_reg i.rd r in
    let immr = u32 i.imm in
    let imms = u32 i.imm2 in
    let result : ℕ = elim i.op [
      | Op.ubfm ↦ if i.is_64bit then ubfm64 immr imms rn_val else ubfm32 immr imms (u32 rn_val)
      | Op.sbfm ↦ if i.is_64bit then sbfm64 immr imms rn_val else sbfm32 immr imms (u32 rn_val)
      | Op.bfm ↦
          if i.is_64bit
          then bfm64 immr imms rn_val rd_val
          else bfm32 immr imms (u32 rn_val) (u32 rd_val)
      | _ ↦ 0
    ] in
    write_reg i.rd result r

unfoldable pub execute_extract : Instruction → RegFile → RegFile
execute_extract i r =
    let rn_val = read_reg i.rn r in
    let rm_val = read_reg i.rm r in
    let lsb = u32 i.imm in
    let wide =
      if lsb == 0
      then rn_val
      else if lsb == 64
      then rm_val
      else bit_or (shr rn_val lsb) (shl64 rm_val (sub32 64 lsb)) in
    let narrow =
      if lsb == 0
      then u32 rn_val
      else if lsb == 32
      then u32 rm_val
      else bit_or (shr (u32 rn_val) lsb) (shl32 (u32 rm_val) (sub32 32 lsb)) in
    write_reg i.rd (if i.is_64bit then wide else narrow) r
