-- ===== src/Emu/Exec/Control.antt =====
-- emu/emulator.go: branches. These handlers set the PC themselves.
use m1sim.Base.{ℕ, Bool, false, not, ◌==◌, if◌then◌else◌, shr, field, add64, bit_and}
use m1sim.Insts.{Op, Instruction}
use m1sim.Emu.RegFile.{RegFile, read_reg}
use m1sim.Emu.Branch
use m1sim.Emu.Branch.{check_condition}

unfoldable pub execute_branch : Instruction → RegFile → RegFile
execute_branch i r = elim i.op [
  | Op.b ↦ Branch.b i.branch_offset r
  | Op.bl ↦ Branch.bl i.branch_offset r
  | _ ↦ r
]

-- `if taken { PC += offset } else { PC += 4 }`
unfoldable pub jump_if : Bool → ℕ → RegFile → RegFile
jump_if taken offset r = record r { pc = if taken then add64 r.pc offset else add64 r.pc 4 }

unfoldable pub execute_branch_cond : Instruction → RegFile → RegFile
unfolding jump_if
execute_branch_cond i r = jump_if (check_condition i.cond r.pstate) i.branch_offset r

unfoldable pub execute_branch_reg : Instruction → RegFile → RegFile
execute_branch_reg i r = elim i.op [
  | Op.br ↦ Branch.br i.rn r
  | Op.blr ↦ Branch.blr i.rn r
  | Op.ret ↦ Branch.ret i.rn r
  | _ ↦ r
]

unfoldable pub execute_test_branch : Instruction → RegFile → RegFile
unfolding jump_if
execute_test_branch i r =
    let bit = field 0 1 (shr (read_reg i.rd r) i.imm) in
    let taken : Bool = elim i.op [ Op.tbz ↦ bit == 0 | Op.tbnz ↦ not (bit == 0) | _ ↦ false ] in
    jump_if taken i.branch_offset r

unfoldable pub execute_compare_branch : Instruction → RegFile → RegFile
unfolding jump_if
execute_compare_branch i r =
    let full = read_reg i.rd r in
    let rt = if i.is_64bit then full else bit_and full 0xFFFFFFFF in
    let taken : Bool = elim i.op [ Op.cbz ↦ rt == 0 | Op.cbnz ↦ not (rt == 0) | _ ↦ false ] in
    jump_if taken i.branch_offset r
