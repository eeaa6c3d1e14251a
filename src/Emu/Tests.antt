-- ===== src/Emu/Tests.antt =====
-- Small runs of emu/.
use m1sim.Base.{◌%◌, ◌*◌, refl, ℕ, ◌≢◌, ◌+◌, none, inl, inr, true, ◌-◌, ◌^◌, ◌≡◌, arith, sub64}
use m1sim.Emu.RegFile.{zero_regs}
use m1sim.Insts.{Op, Format, Instruction, blank}
use m1sim.Insts.Encoding.{add_sub_imm_word, branch_word, branch_cond_word}
use m1sim.Emu.Simd.{FloatOps, lane_loop, doubles}
use m1sim.Emu.Simd.Doubles.{lane_loop-doubles}
use m1sim.Insts.Decoder.{decode}
use m1sim.Emu.RegFile.{read_reg, write_reg}
use m1sim.Emu.Exec.MemoryOps.{access, execute_load_store}
use m1sim.Emu.Exec.MemoryOps.Addressing.{execute_load_store-decode}
use m1sim.Emu.SimdRegFile.{zero_simd}
use m1sim.Emu.RegFile.{read_reg_or_sp}
use m1sim.Emu.Emulator.{Machine, SyscallHandler, execute, step, run}
use m1sim.Emu.Emulator.Run.{run-total}
use m1sim.Emu.Emulator.Advance.{execute-next}
use m1sim.Emu.Emulator.Programs.{step-step-cmp_b_cond, step-branch_word}
use m1sim.Emu.Memory.{Memory, read_bytes, write_bytes, write32, empty, read32, read64, write64}
use m1sim.Emu.Alu.{set_sub_flags64}
use m1sim.Emu.Branch.{check_condition}
use m1sim.Emu.Branch.Conditions.{check_condition-set_sub_flags64}
use m1sim.Emu.Memory.RoundTrip.{read64-write64}

-- 3 < 5
check_condition-set_sub_flags64_example :
    check_condition 0b1011 (set_sub_flags64 3 5 (sub64 3 5) zero_regs).pstate ≡ true
check_condition-set_sub_flags64_example =
    check_condition-set_sub_flags64 0b1011 3 5 zero_regs (omega arith) (omega arith)

-- Across the end of the address space.
read64-write64_example :
    read64 (2 ^ 64 - 3) (write64 (2 ^ 64 - 3) 0x0102030405060708 empty) ≡ 0x0102030405060708
read64-write64_example = read64-write64 (2 ^ 64 - 3) empty 0x0102030405060708 (omega arith)

-- A syscall handler that exits with X0.
abbrev exit_handler : SyscallHandler ℕ
exit_handler s r m = record { exited = true; exit_code = r.x 0; regs = r; mem = m; host = s + 1 }

-- No float instruction runs here.
abbrev no_floats : FloatOps
no_floats = record {
  add_float32 = λ a b. a;
  sub_float32 = λ a b. a;
  mul_float32 = λ a b. a;
  add_float64 = λ a b. a;
  sub_float64 = λ a b. a;
  mul_float64 = λ a b. a;
}

-- The PC is 0 and every register 5.
abbrev machine : ℕ → Memory → Machine ℕ
machine max mem = record {
  regs = record zero_regs { x = λ reg. 5 };
  mem = mem;
  simd = zero_simd;
  host = 0;
  instruction_count = 0;
  max_instructions = max;
}

-- CMP X2, #7; B.LT .+12
abbrev compare_program : Memory
compare_program =
    write32 4 (branch_cond_word 0b1011 12) (write32 0 (add_sub_imm_word 1 1 1 0 7 2 31) empty)

step-step-cmp_b_cond_example :
    (step exit_handler no_floats
      (step exit_handler no_floats (machine 0 compare_program)).0).0.regs.pc
    ≡ 16
unfolding read32 write32 read_bytes write_bytes add_sub_imm_word branch_cond_word read_reg_or_sp
step-step-cmp_b_cond_example =
    step-step-cmp_b_cond exit_handler no_floats 2 7 0b1011 12 (machine 0 compare_program) refl
      (omega arith) (omega arith) (omega arith) (refl, omega arith, inl (omega arith)) (omega arith)
      refl refl

-- BL .-8 at address 0
step-branch_word_example :
    let m = machine 0 (write32 0 (branch_word 1 (2 ^ 64 - 8)) empty) in
    let r = (step exit_handler no_floats m).0.regs in (r.pc ≡ 2 ^ 64 - 8) × (r.x 30 ≡ 4)
unfolding read32 write32 read_bytes write_bytes branch_word
step-branch_word_example =
    step-branch_word exit_handler no_floats 1 (2 ^ 64 - 8)
      (machine 0 (write32 0 (branch_word 1 (2 ^ 64 - 8)) empty)) refl (omega arith)
      (refl, omega arith, inr (omega arith)) refl

run-total_example : run exit_handler no_floats 4 (machine 3 compare_program) ≢ none
run-total_example =
    run-total exit_handler no_floats 4 (machine 3 compare_program) (omega arith) (omega arith)
      (omega arith)

-- At the limit: `Run` gives -1.
abbrev spent : Machine ℕ
spent = record (machine 3 compare_program) { instruction_count = 3 }

-- ADD X1, X2, X3
abbrev add_inst : Instruction
add_inst = record blank {
  op = Op.add;
  format = Format.dp_reg;
  is_64bit = true;
  rd = 1;
  rn = 2;
  rm = 3;
}

execute-next_example : (execute exit_handler no_floats add_inst (machine 0 empty)).0.regs.pc ≡ 4
execute-next_example = execute-next exit_handler no_floats add_inst (machine 0 empty) refl

-- LDR X0, [X1, #-3]!
execute_load_store-decode_example :
    let accessed =
      access (decode 0xF85FDC20) 2 (record { regs = (machine 0 empty).regs; mem = empty }) in
    execute_load_store (decode 0xF85FDC20) (record { regs = (machine 0 empty).regs; mem = empty })
    ≡ record accessed { regs = write_reg 1 2 accessed.regs }
unfolding read_reg
execute_load_store-decode_example =
    execute_load_store-decode 0xF85FDC20 (record { regs = (machine 0 empty).regs; mem = empty })
      refl refl

-- ADD V1.2D, V1.2D, V2.2D
lane_loop-doubles_example :
    lane_loop doubles (λ a b. (a + b) % 2 ^ 64) 1 1 2 2 0 (λ reg half. reg + 2 ^ 63 * half) 1 1 ≡ 3
lane_loop-doubles_example =
    lane_loop-doubles (λ a b. (a + b) % 2 ^ 64) 1 1 2 1 1 (λ reg half. reg + 2 ^ 63 * half)
