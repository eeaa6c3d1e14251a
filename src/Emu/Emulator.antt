-- ===== src/Emu/Emulator.antt =====
-- emu/emulator.go: the machine, `execute`, `Step` and `Run`. The syscall handler is an interface
-- value of the source; here it is a function on its own state, the registers and the memory.
pub mod Run
pub mod Programs
pub mod Advance
use m1sim.Base.{
  ℕ, zero, suc, Bool, true, false, ◌+◌, ◌-◌, ◌^◌, ◌&&◌, ltb, leb, if◌then◌else◌, Option, none, some,
  u64, add64,
}
use m1sim.Insts.{Op, Format, Instruction}
use m1sim.Insts.Decoder.{decode}
use m1sim.Emu.RegFile.{RegFile}
use m1sim.Emu.Memory.{Memory, read32}
use m1sim.Emu.SimdRegFile.{SimdRegFile}
use m1sim.Emu.Simd.{FloatOps}
use m1sim.Emu.Exec.DataReg.{execute_dp_imm, execute_dp_reg, execute_logical_imm}
use m1sim.Emu.Exec.Bitfield.{execute_bitfield, execute_extract}
use m1sim.Emu.Exec.Arith.{
  execute_move_wide, execute_cond_select, execute_cond_cmp, execute_data_proc_2src,
  execute_data_proc_3src, execute_system_reg,
}
use m1sim.Emu.Exec.Control.{
  execute_branch, execute_branch_cond, execute_branch_reg, execute_test_branch,
  execute_compare_branch,
}
use m1sim.Emu.Exec.MemoryOps.{
  Space, execute_load_store, execute_load_store_pair, execute_pc_rel, execute_load_store_lit,
}
use m1sim.Emu.Exec.SimdOps.{execute_simd_reg, execute_simd_load_store, execute_simd_copy}

-- The errors that `Step` returns, with what their texts show.
pub data StepError : Type 0 where
  max_instructions_reached : StepError
  unknown_instruction : ℕ → StepError
  brk_trap : ℕ → ℕ → StepError
  unimplemented_format : Format → ℕ → StepError

-- `exit_code` is an int64 pattern.
pub record StepResult : Type 0 where
  pub exited : Bool
  pub exit_code : ℕ
  pub err : Option StepError

abbrev pub go_on : StepResult
go_on = record { exited = false; exit_code = 0; err = none }

abbrev pub failed : StepError → StepResult
failed e = record { exited = false; exit_code = 0; err = some e }

-- -1 as an int64 pattern.
abbrev pub minus_one : ℕ
minus_one = 2 ^ 64 - 1

-- `host` is the state of the syscall handler beyond the registers and the memory.
pub record Machine (S : Type 0) : Type 0 where
  pub regs : RegFile
  pub mem : Memory
  pub simd : SimdRegFile
  pub host : S
  pub instruction_count : ℕ
  pub max_instructions : ℕ

-- What a syscall leaves: `SyscallResult`, and the state that the handler holds pointers to.
pub record Handled (S : Type 0) : Type 0 where
  pub exited : Bool
  pub exit_code : ℕ
  pub regs : RegFile
  pub mem : Memory
  pub host : S

abbrev pub SyscallHandler : Type 0 → Type 0
SyscallHandler S = S → RegFile → Memory → Handled S

-- `if e.maxInstructions > 0 && e.instructionCount >= e.maxInstructions`
abbrev pub limit_reached : {S : Type 0} → Machine S → Bool
limit_reached m = ltb 0 m.max_instructions && leb m.max_instructions m.instruction_count

-- The body of `Run`'s loop, after a step: its exit code, or none to go round again.
unfoldable pub outcome : StepResult → Option ℕ
outcome result =
    if result.exited
    then some result.exit_code
    else elim result.err [ none ↦ none | some e ↦ some minus_one ]

module _ {S : Type 0} (handle : SyscallHandler S) (floats : FloatOps) where
  unfoldable pub execute_svc : Machine S → Machine S × StepResult
  execute_svc m =
      let r = m.regs in
      let h = handle m.host (record r { pc = add64 r.pc 4 }) m.mem in
      (
        record m { regs = h.regs; mem = h.mem; host = h.host },
        record { exited = h.exited; exit_code = h.exit_code; err = none },
      )

  -- A handler that changes registers only, the PC left to `execute` or set by the handler.
  abbrev on_regs : (RegFile → RegFile) → Machine S → Machine S
  on_regs f m = record m { regs = f m.regs }

  abbrev on_simd : (SimdRegFile → SimdRegFile) → Machine S → Machine S
  on_simd f m = record m { simd = f m.simd }

  abbrev on_space : (Space → Space) → Machine S → Machine S
  on_space f m =
      let s = f (record { regs = m.regs; mem = m.mem }) in record m { regs = s.regs; mem = s.mem }

  -- `e.regFile.PC += 4` at the end of `execute`.
  abbrev advance : Machine S → Machine S × StepResult
  advance m = (on_regs (λ r. record r { pc = add64 r.pc 4 }) m, go_on)

  -- The `switch inst.Format`.
  unfoldable pub execute_format : Instruction → Machine S → Machine S × StepResult
  execute_format i m = elim i.format [
    | Format.dp_imm ↦ advance (on_regs (execute_dp_imm i) m)
    | Format.dp_reg ↦ advance (on_regs (execute_dp_reg i) m)
    | Format.logical_imm ↦ advance (on_regs (execute_logical_imm i) m)
    | Format.bitfield ↦ advance (on_regs (execute_bitfield i) m)
    | Format.extract ↦ advance (on_regs (execute_extract i) m)
    | Format.branch ↦ (on_regs (execute_branch i) m, go_on)
    | Format.branch_cond ↦ (on_regs (execute_branch_cond i) m, go_on)
    | Format.branch_reg ↦ (on_regs (execute_branch_reg i) m, go_on)
    | Format.load_store ↦ advance (on_space (execute_load_store i) m)
    | Format.load_store_pair ↦ advance (on_space (execute_load_store_pair i) m)
    | Format.pc_rel ↦ advance (on_regs (execute_pc_rel i) m)
    | Format.load_store_lit ↦ advance (on_regs (execute_load_store_lit i m.mem) m)
    | Format.move_wide ↦ advance (on_regs (execute_move_wide i) m)
    | Format.cond_select ↦ advance (on_regs (execute_cond_select i) m)
    | Format.cond_cmp ↦ advance (on_regs (execute_cond_cmp i) m)
    | Format.data_proc_2src ↦ advance (on_regs (execute_data_proc_2src i) m)
    | Format.data_proc_3src ↦ advance (on_regs (execute_data_proc_3src i) m)
    | Format.test_branch ↦ (on_regs (execute_test_branch i) m, go_on)
    | Format.compare_branch ↦ (on_regs (execute_compare_branch i) m, go_on)
    | Format.simd_reg ↦ advance (on_simd (execute_simd_reg floats i) m)
    | Format.simd_load_store ↦
        let (v, mem) = execute_simd_load_store i m.regs m.mem m.simd in
        advance (record m { simd = v; mem = mem })
    | Format.simd_copy ↦ advance (on_simd (execute_simd_copy i m.regs) m)
    | Format.system_reg ↦ advance (on_regs (execute_system_reg i) m)
    | other ↦ (m, failed (unimplemented_format other m.regs.pc))
  ]

  unfoldable pub execute : Instruction → Machine S → Machine S × StepResult
  execute i m = elim i.op [
    | Op.unknown ↦ (m, failed (unknown_instruction m.regs.pc))
    | Op.svc ↦ execute_svc m
    | Op.brk ↦
        (m, record { exited = true; exit_code = minus_one; err = some (brk_trap i.imm m.regs.pc) })
    | Op.nop ↦ advance m
    | _ ↦ execute_format i m
  ]

  unfoldable pub step : Machine S → Machine S × StepResult
  step m =
      let (m', result) = execute (decode (read32 m.regs.pc m.mem)) m in
      if limit_reached m
      then (m, failed max_instructions_reached)
      else (record m' { instruction_count = u64 (m'.instruction_count + 1) }, result)

  -- `Run` on fuel: none if the fuel runs out first.
  unfoldable pub run : ℕ → Machine S → Option (ℕ × Machine S)
  run zero m = none
  run (suc fuel) m =
      let (m', result) = step m in
      elim (outcome result) [ some code ↦ some (code, m') | none ↦ run fuel m' ]
