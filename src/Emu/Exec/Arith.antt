-- ===== src/Emu/Exec/Arith.antt =====
-- emu/emulator.go: wide moves, division, variable shifts, multiply-add, conditional select and
-- compare, and system registers.
pub mod Compare
use m1sim.Base.{
  ℕ, Bool, true, false, ◌-◌, ◌*◌, ◌/◌, ◌%◌, ◌^◌, ◌==◌, ltb, leb, same, if◌then◌else◌, u32, u64, shr,
  shl64, shl32, asr64, asr32, not64, not32, add64, sub64, add32, sub32, field, bit_and, bit_or,
  bit_xor,
}
use m1sim.Insts.{Op, Instruction}
use m1sim.Emu.RegFile.{Pstate, RegFile, read_reg, write_reg}
use m1sim.Emu.Branch.{check_condition}

unfoldable pub execute_move_wide : Instruction → RegFile → RegFile
execute_move_wide i r =
    let moved = shl64 i.imm i.shift in
    let mask = not64 (shl64 0xFFFF i.shift) in
    elim i.op [
      | Op.movz ↦ write_reg i.rd moved r
      | Op.movn ↦
          write_reg i.rd (if i.is_64bit then not64 moved else bit_and (not64 moved) 0xFFFFFFFF) r
      | Op.movk ↦ write_reg i.rd (bit_or (bit_and (read_reg i.rd r) mask) moved) r
      | _ ↦ r
    ]

unfoldable pub execute_cond_select : Instruction → RegFile → RegFile
execute_cond_select i r =
    let narrow = λ (x : ℕ). if i.is_64bit then x else bit_and x 0xFFFFFFFF in
    let rn_val = narrow (read_reg i.rn r) in
    let rm_val = narrow (read_reg i.rm r) in
    let other : ℕ = elim i.op [
      | Op.csel ↦ rm_val
      | Op.csinc ↦ add64 rm_val 1
      | Op.csinv ↦ not64 rm_val
      | Op.csneg ↦ sub64 0 rm_val
      | _ ↦ 0
    ] in
    write_reg i.rd (narrow (if check_condition i.cond r.pstate then rn_val else other)) r

-- The flags of a conditional compare whose condition holds, by the source's formulas.
unfoldable pub ccmp_flags64 : ℕ → ℕ → Pstate
ccmp_flags64 rn op =
    let result = sub64 rn op in
    record {
      n = shr result 63 == 1;
      z = result == 0;
      c = leb op rn;
      v = shr (bit_and (bit_xor rn op) (bit_xor rn result)) 63 == 1;
    }

unfoldable pub ccmn_flags64 : ℕ → ℕ → Pstate
ccmn_flags64 rn op =
    let result = add64 rn op in
    record {
      n = shr result 63 == 1;
      z = result == 0;
      c = ltb result rn;
      v = shr (bit_and (not64 (bit_xor rn op)) (bit_xor rn result)) 63 == 1;
    }

unfoldable pub ccmp_flags32 : ℕ → ℕ → Pstate
ccmp_flags32 rn op =
    let result = sub32 rn op in
    record {
      n = shr result 31 == 1;
      z = result == 0;
      c = leb op rn;
      v = shr (bit_and (bit_xor rn op) (bit_xor rn result)) 31 == 1;
    }

unfoldable pub ccmn_flags32 : ℕ → ℕ → Pstate
ccmn_flags32 rn op =
    let result = add32 rn op in
    record {
      n = shr result 31 == 1;
      z = result == 0;
      c = ltb result rn;
      v = shr (bit_and (not32 (bit_xor rn op)) (bit_xor rn result)) 31 == 1;
    }

-- The flags of a conditional compare whose condition fails: bits 3 to 0 of nzcv.
unfoldable pub nzcv_flags : ℕ → Pstate
nzcv_flags nzcv = record {
  n = field 3 1 nzcv == 1;
  z = field 2 1 nzcv == 1;
  c = field 1 1 nzcv == 1;
  v = field 0 1 nzcv == 1;
}

abbrev is_ccmp : Op → Bool
is_ccmp Op.ccmp = true
is_ccmp _ = false

unfoldable pub execute_cond_cmp : Instruction → RegFile → RegFile
execute_cond_cmp i r =
    let rn_val = read_reg i.rn r in
    let operand = if i.rm == 0xFF then i.imm2 else read_reg i.rm r in
    let compared =
      if i.is_64bit
      then (if is_ccmp i.op then ccmp_flags64 rn_val operand else ccmn_flags64 rn_val operand)
      else if is_ccmp i.op
      then ccmp_flags32 (u32 rn_val) (u32 operand)
      else ccmn_flags32 (u32 rn_val) (u32 operand) in
    record r { pstate = if check_condition i.cond r.pstate then compared else nzcv_flags i.imm }

-- int64(a) / int64(b): truncated towards 0, and the one overflow wraps.
unfoldable pub sdiv64 : ℕ → ℕ → ℕ
sdiv64 a b =
    let abs_a = if ltb a (2 ^ 63) then a else 2 ^ 64 - a in
    let abs_b = if ltb b (2 ^ 63) then b else 2 ^ 64 - b in
    let quotient = abs_a / abs_b in
    if same (ltb a (2 ^ 63)) (ltb b (2 ^ 63))
    then quotient % 2 ^ 64
    else (2 ^ 64 - quotient) % 2 ^ 64

-- int32(a) / int32(b): truncated towards 0, and the one overflow wraps.
unfoldable pub sdiv32 : ℕ → ℕ → ℕ
sdiv32 a b =
    let abs_a = if ltb a (2 ^ 31) then a else 2 ^ 32 - a in
    let abs_b = if ltb b (2 ^ 31) then b else 2 ^ 32 - b in
    let quotient = abs_a / abs_b in
    if same (ltb a (2 ^ 31)) (ltb b (2 ^ 31))
    then quotient % 2 ^ 32
    else (2 ^ 32 - quotient) % 2 ^ 32

unfoldable pub execute_data_proc_2src : Instruction → RegFile → RegFile
execute_data_proc_2src i r =
    let rn = read_reg i.rn r in
    let rm = read_reg i.rm r in
    let rn32 = u32 rn in
    let rm32 = u32 rm in
    let s64 = bit_and rm 0x3F in
    let s32 = bit_and rm32 0x1F in
    let result : ℕ = elim i.op [
      | Op.udiv ↦
          if i.is_64bit
          then (if rm == 0 then 0 else rn / rm)
          else if rm32 == 0
          then 0
          else rn32 / rm32
      | Op.sdiv ↦
          if i.is_64bit
          then (if rm == 0 then 0 else sdiv64 rn rm)
          else if rm32 == 0
          then 0
          else sdiv32 rn32 rm32
      | Op.lslv ↦ if i.is_64bit then shl64 rn s64 else shl32 rn32 s32
      | Op.lsrv ↦ if i.is_64bit then shr rn s64 else shr rn32 s32
      | Op.asrv ↦ if i.is_64bit then asr64 rn s64 else asr32 rn32 s32
      | Op.rorv ↦
          if i.is_64bit
          then bit_or (shr rn s64) (shl64 rn (64 - s64))
          else bit_or (shr rn32 s32) (shl32 rn32 (32 - s32))
      | _ ↦ 0
    ] in
    write_reg i.rd result r

unfoldable pub execute_data_proc_3src : Instruction → RegFile → RegFile
execute_data_proc_3src i r =
    let rn = read_reg i.rn r in
    let rm = read_reg i.rm r in
    let ra = read_reg i.rt2 r in
    let product64 = u64 (rn * rm) in
    let product32 = u32 (u32 rn * u32 rm) in
    let result : ℕ = elim i.op [
      | Op.madd ↦ if i.is_64bit then add64 ra product64 else add32 (u32 ra) product32
      | Op.msub ↦ if i.is_64bit then sub64 ra product64 else sub32 (u32 ra) product32
      | _ ↦ 0
    ] in
    write_reg i.rd result r

unfoldable pub execute_mrs : Instruction → RegFile → RegFile
execute_mrs i r = write_reg i.rd (if i.sys_reg == 0x5807 then 0x60 else 0) r

unfoldable pub execute_system_reg : Instruction → RegFile → RegFile
execute_system_reg i r = elim i.op [ Op.mrs ↦ execute_mrs i r | _ ↦ r ]
