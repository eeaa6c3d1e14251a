-- ===== src/Emu/Emulator/Advance.antt =====
-- What one step does to the PC and to the array element of the zero register.
use m1sim.Base.{Bool, true, false, ◌≡◌, arith, add64}
use m1sim.Insts.{Op, Format, Instruction}
use m1sim.Insts.Decoder.{decode}
use m1sim.Emu.RegFile.{RegFile, write_reg}
use m1sim.Emu.Memory.{Memory, read32}
use m1sim.Emu.Branch.{b, bl, br, blr, ret}
use m1sim.Emu.Simd.{FloatOps}
use m1sim.Emu.Exec.MemoryOps.{Space}
use m1sim.Emu.Exec.Control.{
  execute_branch, jump_if, execute_branch_cond, execute_branch_reg, execute_test_branch,
  execute_compare_branch,
}
use m1sim.Emu.Exec.Sequential.{
  execute_dp_imm-pc, execute_dp_reg-pc, execute_logical_imm-pc, execute_bitfield-pc,
  execute_extract-pc, execute_move_wide-pc, execute_cond_select-pc, execute_cond_cmp-pc,
  execute_data_proc_2src-pc, execute_data_proc_3src-pc, execute_system_reg-pc, execute_pc_rel-pc,
  execute_dp_imm-x31, execute_dp_reg-x31, execute_logical_imm-x31, execute_bitfield-x31,
  execute_extract-x31, execute_move_wide-x31, execute_cond_select-x31, execute_cond_cmp-x31,
  execute_data_proc_2src-x31, execute_data_proc_3src-x31, execute_system_reg-x31,
  execute_pc_rel-x31,
}
use m1sim.Emu.Exec.MemoryOps.Sequential.{
  execute_load_store-pc, execute_load_store-x31, execute_load_store_pair-pc,
  execute_load_store_pair-x31, execute_load_store_lit-pc, execute_load_store_lit-x31,
}
use m1sim.Emu.Emulator.{Machine, SyscallHandler, execute_svc, execute_format, execute, step}

-- The formats that have a handler and are no branch.
abbrev pub is_sequential_format : Format → Bool
is_sequential_format f = elim f [
  | Format.branch ↦ false
  | Format.branch_cond ↦ false
  | Format.branch_reg ↦ false
  | Format.test_branch ↦ false
  | Format.compare_branch ↦ false
  | Format.unknown ↦ false
  | Format.exception ↦ false
  | _ ↦ true
]

-- The instructions after which the next one in memory is due.
abbrev pub is_sequential : Instruction → Bool
is_sequential i = elim i.op [
  | Op.unknown ↦ false
  | Op.svc ↦ false
  | Op.brk ↦ false
  | Op.nop ↦ true
  | _ ↦ is_sequential_format i.format
]

execute_branch-x31 : (i : Instruction) (r : RegFile) → (execute_branch i r).x 31 ≡ r.x 31
unfolding execute_branch b bl write_reg
execute_branch-x31 i r = ground arith

execute_branch_cond-x31 : (i : Instruction) (r : RegFile) → (execute_branch_cond i r).x 31 ≡ r.x 31
unfolding execute_branch_cond jump_if
execute_branch_cond-x31 i r = ground arith

execute_branch_reg-x31 : (i : Instruction) (r : RegFile) → (execute_branch_reg i r).x 31 ≡ r.x 31
unfolding execute_branch_reg br blr ret write_reg
execute_branch_reg-x31 i r = ground arith

execute_test_branch-x31 : (i : Instruction) (r : RegFile) → (execute_test_branch i r).x 31 ≡ r.x 31
unfolding execute_test_branch jump_if
execute_test_branch-x31 i r = ground arith

execute_compare_branch-x31 :
    (i : Instruction) (r : RegFile) → (execute_compare_branch i r).x 31 ≡ r.x 31
unfolding execute_compare_branch jump_if
execute_compare_branch-x31 i r = ground arith

module _ {S : Type 0} (handle : SyscallHandler S) (floats : FloatOps) where
  execute_format-next :
      (i : Instruction) (m : Machine S)
      → is_sequential_format i.format ≡ true
      → (execute_format handle floats i m).0.regs.pc ≡ add64 m.regs.pc 4
  unfolding execute_format
  execute_format-next i m h =
      let r = m.regs in
      let s : Space = record { regs = r; mem = m.mem } in
      ground (
        arith,
        execute_dp_imm-pc i r,
        execute_dp_reg-pc i r,
        execute_logical_imm-pc i r,
        execute_bitfield-pc i r,
        execute_extract-pc i r,
        execute_move_wide-pc i r,
        execute_cond_select-pc i r,
        execute_cond_cmp-pc i r,
        execute_data_proc_2src-pc i r,
        execute_data_proc_3src-pc i r,
        execute_system_reg-pc i r,
        execute_pc_rel-pc i r,
        execute_load_store-pc i s,
        execute_load_store_pair-pc i s,
        execute_load_store_lit-pc i m.mem r,
      )

  -- After every instruction with a handler that is no branch, system call or breakpoint, the PC is
  -- four bytes on: no data-processing, memory or SIMD handler changes it otherwise.
  pub execute-next :
      (i : Instruction) (m : Machine S)
      → is_sequential i ≡ true
      → (execute handle floats i m).0.regs.pc ≡ add64 m.regs.pc 4
  unfolding execute
  execute-next i m h = ground (arith, execute_format-next i m)

  execute_format-x31 :
      (i : Instruction) (m : Machine S)
      → (execute_format handle floats i m).0.regs.x 31 ≡ m.regs.x 31
  unfolding execute_format
  execute_format-x31 i m =
      let r = m.regs in
      let s : Space = record { regs = r; mem = m.mem } in
      ground (
        arith,
        execute_dp_imm-x31 i r,
        execute_dp_reg-x31 i r,
        execute_logical_imm-x31 i r,
        execute_bitfield-x31 i r,
        execute_extract-x31 i r,
        execute_move_wide-x31 i r,
        execute_cond_select-x31 i r,
        execute_cond_cmp-x31 i r,
        execute_data_proc_2src-x31 i r,
        execute_data_proc_3src-x31 i r,
        execute_system_reg-x31 i r,
        execute_pc_rel-x31 i r,
        execute_load_store-x31 i s,
        execute_load_store_pair-x31 i s,
        execute_load_store_lit-x31 i m.mem r,
        execute_branch-x31 i r,
        execute_branch_cond-x31 i r,
        execute_branch_reg-x31 i r,
        execute_test_branch-x31 i r,
        execute_compare_branch-x31 i r,
      )

  execute-x31 :
      (i : Instruction) (m : Machine S)
      → ((s : S) (r : RegFile) (mem : Memory) → (handle s r mem).regs.x 31 ≡ r.x 31)
      → (execute handle floats i m).0.regs.x 31 ≡ m.regs.x 31
  unfolding execute execute_svc
  execute-x31 i m h =
      let r = m.regs in
      ground (arith, execute_format-x31 i m, h m.host (record r { pc = add64 r.pc 4 }) m.mem)

  -- No step writes the array element of register 31, which stands for the zero register, provided
  -- that the syscall handler does not.
  pub step-x31 :
      (m : Machine S)
      → ((s : S) (r : RegFile) (mem : Memory) → (handle s r mem).regs.x 31 ≡ r.x 31)
      → (step handle floats m).0.regs.x 31 ≡ m.regs.x 31
  unfolding step
  step-x31 m h = ground (arith, execute-x31 (decode (read32 m.regs.pc m.mem)) m h)
