-- ===== src/Emu/Exec/DataReg.antt =====
-- emu/emulator.go: data processing with an immediate, a shifted register or a bitmask.
use m1sim.Base.{
  ℕ, ◌+◌, ◌-◌, ◌%◌, ◌==◌, ltb, if◌then◌else◌, u32, shr, shl64, shl32, asr64, asr32, not64, not32,
  add64, sub64, add32, sub32, bit_and, bit_or, bit_xor,
}
use m1sim.Insts.{Op, Instruction}
use m1sim.Emu.RegFile.{RegFile, read_reg, write_reg}
use m1sim.Emu.Alu.{
  set_add_flags64, set_add_flags32, set_sub_flags64, set_sub_flags32, set_logic_flags64,
  set_logic_flags32, add64_imm, add32_imm, sub64_imm, sub32_imm, and64_imm, and32_imm, orr64_imm,
  orr32_imm, eor64_imm, eor32_imm,
}

unfoldable pub execute_dp_imm : Instruction → RegFile → RegFile
execute_dp_imm i r =
    let imm = if ltb 0 i.shift then shl64 i.imm i.shift else i.imm in
    elim i.op [
      | Op.add ↦
          if i.is_64bit
          then add64_imm i.rd i.rn imm i.set_flags r
          else add32_imm i.rd i.rn (u32 imm) i.set_flags r
      | Op.sub ↦
          if i.is_64bit
          then sub64_imm i.rd i.rn imm i.set_flags r
          else sub32_imm i.rd i.rn (u32 imm) i.set_flags r
      | _ ↦ r
    ]

-- 64 - amount is a uint8, which wraps for an amount above 64.
unfoldable pub apply_shift64 : ℕ → ℕ → ℕ → ℕ
apply_shift64 value shift_type amount =
    if amount == 0
    then value
    else if shift_type == 0b00
    then shl64 value amount
    else if shift_type == 0b01
    then shr value amount
    else if shift_type == 0b10
    then asr64 value amount
    else if shift_type == 0b11
    then bit_or (shr value amount) (shl64 value ((64 + 256 - amount) % 256))
    else value

-- 32 - amount is a uint8, which wraps for an amount above 32.
unfoldable pub apply_shift32 : ℕ → ℕ → ℕ → ℕ
apply_shift32 value shift_type amount =
    if amount == 0
    then value
    else if shift_type == 0b00
    then shl32 value amount
    else if shift_type == 0b01
    then shr value amount
    else if shift_type == 0b10
    then asr32 value amount
    else if shift_type == 0b11
    then bit_or (shr value amount) (shl32 value ((32 + 256 - amount) % 256))
    else value

-- The two operands of a register form: Rn, and Rm shifted.
abbrev operand64 : Instruction → RegFile → ℕ
operand64 i r = apply_shift64 (read_reg i.rm r) i.shift_type i.shift_amount

abbrev operand32 : Instruction → RegFile → ℕ
operand32 i r = apply_shift32 (u32 (read_reg i.rm r)) i.shift_type i.shift_amount

unfoldable pub dp_reg_add64 : Instruction → RegFile → RegFile
unfolding apply_shift64
dp_reg_add64 i r =
    let op1 = read_reg i.rn r in
    let op2 = operand64 i r in
    let result = add64 op1 op2 in
    let written = write_reg i.rd result r in
    if i.set_flags then set_add_flags64 op1 op2 result written else written

unfoldable pub dp_reg_add32 : Instruction → RegFile → RegFile
unfolding apply_shift32
dp_reg_add32 i r =
    let op1 = u32 (read_reg i.rn r) in
    let op2 = operand32 i r in
    let result = add32 op1 op2 in
    let written = write_reg i.rd result r in
    if i.set_flags then set_add_flags32 op1 op2 result written else written

unfoldable pub dp_reg_sub64 : Instruction → RegFile → RegFile
unfolding apply_shift64
dp_reg_sub64 i r =
    let op1 = read_reg i.rn r in
    let op2 = operand64 i r in
    let result = sub64 op1 op2 in
    let written = write_reg i.rd result r in
    if i.set_flags then set_sub_flags64 op1 op2 result written else written

unfoldable pub dp_reg_sub32 : Instruction → RegFile → RegFile
unfolding apply_shift32
dp_reg_sub32 i r =
    let op1 = u32 (read_reg i.rn r) in
    let op2 = operand32 i r in
    let result = sub32 op1 op2 in
    let written = write_reg i.rd result r in
    if i.set_flags then set_sub_flags32 op1 op2 result written else written

unfoldable pub dp_reg_and64 : Instruction → RegFile → RegFile
unfolding apply_shift64
dp_reg_and64 i r =
    let op1 = read_reg i.rn r in
    let op2 = operand64 i r in
    let result = bit_and op1 op2 in
    let written = write_reg i.rd result r in
    if i.set_flags then set_logic_flags64 result written else written

unfoldable pub dp_reg_and32 : Instruction → RegFile → RegFile
unfolding apply_shift32
dp_reg_and32 i r =
    let op1 = u32 (read_reg i.rn r) in
    let op2 = operand32 i r in
    let result = bit_and op1 op2 in
    let written = write_reg i.rd result r in
    if i.set_flags then set_logic_flags32 result written else written

unfoldable pub dp_reg_orr64 : Instruction → RegFile → RegFile
unfolding apply_shift64
dp_reg_orr64 i r =
    let op1 = read_reg i.rn r in
    let op2 = operand64 i r in
    let result = bit_or op1 op2 in let written = write_reg i.rd result r in written

unfoldable pub dp_reg_orr32 : Instruction → RegFile → RegFile
unfolding apply_shift32
dp_reg_orr32 i r =
    let op1 = u32 (read_reg i.rn r) in
    let op2 = operand32 i r in
    let result = bit_or op1 op2 in let written = write_reg i.rd result r in written

unfoldable pub dp_reg_eor64 : Instruction → RegFile → RegFile
unfolding apply_shift64
dp_reg_eor64 i r =
    let op1 = read_reg i.rn r in
    let op2 = operand64 i r in
    let result = bit_xor op1 op2 in let written = write_reg i.rd result r in written

unfoldable pub dp_reg_eor32 : Instruction → RegFile → RegFile
unfolding apply_shift32
dp_reg_eor32 i r =
    let op1 = u32 (read_reg i.rn r) in
    let op2 = operand32 i r in
    let result = bit_xor op1 op2 in let written = write_reg i.rd result r in written

unfoldable pub dp_reg_bic64 : Instruction → RegFile → RegFile
unfolding apply_shift64
dp_reg_bic64 i r =
    let op1 = read_reg i.rn r in
    let op2 = operand64 i r in
    let result = bit_and op1 (not64 op2) in
    let written = write_reg i.rd result r in
    if i.set_flags then set_logic_flags64 result written else written

unfoldable pub dp_reg_bic32 : Instruction → RegFile → RegFile
unfolding apply_shift32
dp_reg_bic32 i r =
    let op1 = u32 (read_reg i.rn r) in
    let op2 = operand32 i r in
    let result = bit_and op1 (not32 op2) in
    let written = write_reg i.rd result r in
    if i.set_flags then set_logic_flags32 result written else written

unfoldable pub dp_reg_orn64 : Instruction → RegFile → RegFile
unfolding apply_shift64
dp_reg_orn64 i r =
    let op1 = read_reg i.rn r in
    let op2 = operand64 i r in
    let result = bit_or op1 (not64 op2) in let written = write_reg i.rd result r in written

unfoldable pub dp_reg_orn32 : Instruction → RegFile → RegFile
unfolding apply_shift32
dp_reg_orn32 i r =
    let op1 = u32 (read_reg i.rn r) in
    let op2 = operand32 i r in
    let result = bit_or op1 (not32 op2) in let written = write_reg i.rd result r in written

unfoldable pub dp_reg_eon64 : Instruction → RegFile → RegFile
unfolding apply_shift64
dp_reg_eon64 i r =
    let op1 = read_reg i.rn r in
    let op2 = operand64 i r in
    let result = bit_xor op1 (not64 op2) in let written = write_reg i.rd result r in written

unfoldable pub dp_reg_eon32 : Instruction → RegFile → RegFile
unfolding apply_shift32
dp_reg_eon32 i r =
    let op1 = u32 (read_reg i.rn r) in
    let op2 = operand32 i r in
    let result = bit_xor op1 (not32 op2) in let written = write_reg i.rd result r in written

unfoldable pub execute_dp_reg : Instruction → RegFile → RegFile
execute_dp_reg i r = elim i.op [
  | Op.add ↦ if i.is_64bit then dp_reg_add64 i r else dp_reg_add32 i r
  | Op.sub ↦ if i.is_64bit then dp_reg_sub64 i r else dp_reg_sub32 i r
  | Op.and ↦ if i.is_64bit then dp_reg_and64 i r else dp_reg_and32 i r
  | Op.orr ↦ if i.is_64bit then dp_reg_orr64 i r else dp_reg_orr32 i r
  | Op.eor ↦ if i.is_64bit then dp_reg_eor64 i r else dp_reg_eor32 i r
  | Op.bic ↦ if i.is_64bit then dp_reg_bic64 i r else dp_reg_bic32 i r
  | Op.orn ↦ if i.is_64bit then dp_reg_orn64 i r else dp_reg_orn32 i r
  | Op.eon ↦ if i.is_64bit then dp_reg_eon64 i r else dp_reg_eon32 i r
  | _ ↦ r
]

unfoldable pub execute_logical_imm : Instruction → RegFile → RegFile
execute_logical_imm i r = elim i.op [
  | Op.and ↦
      if i.is_64bit
      then and64_imm i.rd i.rn i.imm i.set_flags r
      else and32_imm i.rd i.rn i.imm i.set_flags r
  | Op.orr ↦ if i.is_64bit then orr64_imm i.rd i.rn i.imm r else orr32_imm i.rd i.rn i.imm r
  | Op.eor ↦ if i.is_64bit then eor64_imm i.rd i.rn i.imm r else eor32_imm i.rd i.rn i.imm r
  | _ ↦ r
]
