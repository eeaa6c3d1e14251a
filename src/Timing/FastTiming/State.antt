-- ===== src/Timing/FastTiming/State.antt =====
-- timing/pipeline/fast_timing.go: the state of the simplified simulation, and what its instructions do
-- to it.
use m1sim.Base.{
  ℕ, Bool, true, false, ◌-◌, ◌&&◌, ◌==◌, ltb, leb, if◌then◌else◌, add64, sub64, shr, sext32_64,
  bit_and, u8, u16,
}
use m1sim.Insts.{Op, Instruction, IndexMode}
use m1sim.Emu.RegFile.{RegFile, Pstate, read_reg, write_reg}
use m1sim.Emu.Memory.{Memory, read8, read16, read32, read64, write8, write16, write64}
use m1sim.Timing.FastTiming.Values.{update_flags_sub, evaluate_condition}

-- `host` is the state of the syscall handler beyond the registers and the memory.
pub record FastTiming (S : Type 0) : Type 0 where
  pub regs : RegFile
  pub mem : Memory
  pub host : S
  pub pc : ℕ
  pub halted : Bool
  pub exit_code : ℕ
  pub cycle_count : ℕ
  pub instr_count : ℕ
  pub max_instructions : ℕ
  pub unhandled_count : ℕ

unfoldable pub new_fast_timing : {S : Type 0} → RegFile → Memory → S → ℕ → FastTiming S
new_fast_timing regs mem host max = record {
  regs = regs;
  mem = mem;
  host = host;
  pc = 0;
  halted = false;
  exit_code = 0;
  cycle_count = 0;
  instr_count = 0;
  max_instructions = max;
  unhandled_count = 0;
}

-- The address for the modes of LDR and STR.
abbrev pub indexed_address : Instruction → ℕ → ℕ
indexed_address i rn_value = elim i.index_mode [
  | IndexMode.index_post ↦ rn_value
  | IndexMode.index_pre ↦ add64 rn_value i.signed_imm
  | _ ↦ add64 rn_value i.imm
]

abbrev pub is_unknown : Op → Bool
is_unknown op = elim op [ Op.unknown ↦ true | _ ↦ false ]

module _ {S : Type 0} where
  abbrev pub set_pc : ℕ → FastTiming S → FastTiming S
  set_pc pc ft = record ft { pc = pc }

  abbrev pub set_pstate : Pstate → FastTiming S → FastTiming S
  set_pstate p ft = record ft { regs = record ft.regs { pstate = p } }

  abbrev pub set_register : ℕ → ℕ → FastTiming S → FastTiming S
  set_register reg value ft = record ft { regs = write_reg reg value ft.regs }

  abbrev pub set_memory : Memory → FastTiming S → FastTiming S
  set_memory m ft = record ft { mem = m }

  abbrev pub jump : ℕ → FastTiming S → FastTiming S
  jump target ft = record ft { pc = target }

  -- A jump from pc by the instruction's offset, or the next instruction.
  abbrev pub branch_if : Bool → Instruction → ℕ → FastTiming S → FastTiming S
  branch_if taken i pc ft = jump (if taken then add64 pc i.branch_offset else add64 ft.pc 4) ft

  -- "Handle instruction completion": the result, the cycles beyond the first, and the next PC.
  unfoldable pub complete : ℕ → ℕ → ℕ → FastTiming S → FastTiming S
  complete dest value latency ft = record ft {
    regs = if dest == 31 then ft.regs else write_reg dest value ft.regs;
    cycle_count = if ltb 1 latency then add64 ft.cycle_count (latency - 1) else ft.cycle_count;
    pc = add64 ft.pc 4;
  }

  -- The write-back of the base register for the modes of LDR and STR.
  abbrev pub write_base : Instruction → ℕ → FastTiming S → FastTiming S
  write_base i rn_value ft = elim i.index_mode [
    | IndexMode.index_post ↦ set_register i.rn (add64 rn_value i.signed_imm) ft
    | IndexMode.index_pre ↦ set_register i.rn (add64 rn_value i.signed_imm) ft
    | _ ↦ ft
  ]

  -- The same for pairs, whose address is the same in every mode.
  abbrev pub write_pair_base : Instruction → ℕ → FastTiming S → FastTiming S
  write_pair_base i addr ft = elim i.index_mode [
    | IndexMode.index_none ↦ ft
    | IndexMode.index_signed ↦ ft
    | _ ↦ set_register i.rn addr ft
  ]

  unfoldable pub execute_stp : Instruction → ℕ → FastTiming S → FastTiming S
  execute_stp i rn_value ft =
      let addr = add64 rn_value i.signed_imm in
      let m = write64 addr (read_reg i.rd ft.regs) ft.mem in
      write_pair_base i addr (set_memory (write64 (add64 addr 8) (read_reg i.rt2 ft.regs) m) ft)

  unfoldable pub execute_ldp : Instruction → ℕ → FastTiming S → FastTiming S
  execute_ldp i rn_value ft =
      let addr = add64 rn_value i.signed_imm in
      let value1 = read64 addr ft.mem in
      let value2 = read64 (add64 addr 8) ft.mem in
      let first = if i.rd == 31 then ft else set_register i.rd value1 ft in
      write_pair_base i addr (if i.rt2 == 31 then first else set_register i.rt2 value2 first)

  unfoldable pub execute_ccmp : Instruction → ℕ → ℕ → FastTiming S → FastTiming S
  unfolding evaluate_condition update_flags_sub
  execute_ccmp i rn_value rm_value ft =
      let op2 = if i.rm == 0xFF then i.imm2 else rm_value in
      let nzcv = bit_and i.imm 0xF in
      set_pstate
        (if evaluate_condition i.cond ft.regs.pstate
          then update_flags_sub rn_value op2 (sub64 rn_value op2) i.is_64bit
          else record {
            n = bit_and (shr nzcv 3) 1 == 1;
            z = bit_and (shr nzcv 2) 1 == 1;
            c = bit_and (shr nzcv 1) 1 == 1;
            v = bit_and nzcv 1 == 1;
          })
        ft

  -- The narrow loads and stores, whose offset is the immediate in every mode.
  unfoldable pub execute_ldrb : Instruction → ℕ → ℕ → FastTiming S → FastTiming S
  unfolding complete
  execute_ldrb i rn_value latency ft =
      complete i.rd (read8 (add64 rn_value i.imm) ft.mem) latency ft

  unfoldable pub execute_strb : Instruction → ℕ → ℕ → FastTiming S → FastTiming S
  unfolding complete
  execute_strb i rn_value latency ft =
      complete 31 0 latency
        (set_memory (write8 (add64 rn_value i.imm) (u8 (read_reg i.rd ft.regs)) ft.mem) ft)

  unfoldable pub execute_ldrh : Instruction → ℕ → ℕ → FastTiming S → FastTiming S
  unfolding complete
  execute_ldrh i rn_value latency ft =
      complete i.rd (read16 (add64 rn_value i.imm) ft.mem) latency ft

  unfoldable pub execute_strh : Instruction → ℕ → ℕ → FastTiming S → FastTiming S
  unfolding complete
  execute_strh i rn_value latency ft =
      complete 31 0 latency
        (set_memory (write16 (add64 rn_value i.imm) (u16 (read_reg i.rd ft.regs)) ft.mem) ft)

  unfoldable pub execute_ldrsw : Instruction → ℕ → ℕ → FastTiming S → FastTiming S
  unfolding complete
  execute_ldrsw i rn_value latency ft =
      complete i.rd (sext32_64 (read32 (add64 rn_value i.imm) ft.mem)) latency ft

  -- `if inst.SetFlags`
  abbrev pub flags_if : Instruction → Pstate → FastTiming S → FastTiming S
  flags_if i p ft = if i.set_flags then set_pstate p ft else ft

  -- `ft.maxInstructions > 0 && ft.instrCount >= ft.maxInstructions`
  abbrev pub at_limit : FastTiming S → Bool
  at_limit ft = ltb 0 ft.max_instructions && leb ft.max_instructions ft.instr_count
