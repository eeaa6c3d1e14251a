-- ===== src/Timing/FastTiming.antt =====
-- timing/pipeline/fast_timing.go: the simplified timing simulation. The syscall handler is a parameter
-- that may be missing (nil), and the decoder and the latency table are those of their modules.
pub mod Values
pub mod State
pub mod Conditions
pub mod Running
mod Tests
use m1sim.Base.{
  ℕ, zero, suc, Bool, true, false, not, ◌+◌, ◌-◌, ◌^◌, ◌*◌, ◌/◌, ◌%◌, ◌&&◌, ◌||◌, ◌==◌, ltb, leb,
  if◌then◌else◌, Option, none, some, add64, sub64, shr, shl64, asr64, not64, sext32_64, bit_and,
  bit_or, bit_xor, u8, u16, u64,
}
use m1sim.Insts.{Op, Instruction, IndexMode}
use m1sim.Insts.Decoder.{decode}
use m1sim.Emu.RegFile.{RegFile, Pstate, read_reg, write_reg}
use m1sim.Emu.Memory.{Memory, read8, read16, read32, read64, write8, write16, write64}
use m1sim.Emu.Emulator.{SyscallHandler, minus_one}
use m1sim.Timing.Latency.{TimingConfig, get_latency}
use m1sim.Timing.FastTiming.Values.{
  execute_add, execute_sub, update_flags_add, update_flags_sub, update_flags_logical,
  evaluate_condition, logical_operand, execute_ubfm, execute_sbfm, execute_madd, execute_msub,
  execute_csel, execute_csinc, execute_lslv, execute_lsrv, execute_asrv, execute_bic, execute_orn,
  execute_eon,
}
use m1sim.Timing.FastTiming.State.{
  at_limit, FastTiming, new_fast_timing, indexed_address, is_unknown, set_pc, set_pstate,
  set_register, set_memory, jump, branch_if, complete, write_base, write_pair_base, execute_stp,
  execute_ldp, execute_ccmp, execute_ldrb, execute_strb, execute_ldrh, execute_strh, execute_ldrsw,
  flags_if,
}

module _ {S : Type 0} (handler : Option (SyscallHandler S)) (config : TimingConfig) where
  unfoldable pub handle_syscall : FastTiming S → FastTiming S
  handle_syscall ft = elim handler [
    | none ↦ jump (add64 ft.pc 4) ft
    | some handle ↦
        let h = handle ft.host ft.regs ft.mem in
        let ft' = record ft { regs = h.regs; mem = h.mem; host = h.host } in
        if h.exited
        then record ft' { halted = true; exit_code = h.exit_code }
        else jump (add64 ft.pc 4) ft'
  ]

  -- The `switch inst.Op`.
  unfoldable pub execute_instruction : Instruction → ℕ → FastTiming S → FastTiming S
  unfolding handle_syscall complete execute_stp execute_ldp execute_ccmp execute_add execute_sub
      update_flags_add update_flags_sub update_flags_logical execute_ubfm execute_sbfm
      evaluate_condition execute_ldrb execute_strb execute_ldrh execute_strh execute_ldrsw
      execute_csel execute_csinc
  execute_instruction i pc ft =
      let rn_value = read_reg i.rn ft.regs in
      let rm_value = read_reg i.rm ft.regs in
      let rd_value = read_reg i.rd ft.regs in
      let ra_value = read_reg i.rt2 ft.regs in
      let latency = get_latency config (some i) in
      let bit = bit_and (shr rd_value i.imm) 1 in
      let operand = logical_operand i rm_value in
      let p = ft.regs.pstate in
      elim i.op [
        | Op.add ↦
            let value = execute_add i rn_value rm_value in
            complete i.rd value latency
              (flags_if i (update_flags_add rn_value (sub64 value rn_value) value i.is_64bit) ft)
        | Op.sub ↦
            let value = execute_sub i rn_value rm_value in
            complete i.rd value latency
              (flags_if i (update_flags_sub rn_value operand value i.is_64bit) ft)
        | Op.ldr ↦
            complete i.rd (read64 (indexed_address i rn_value) ft.mem) latency
              (write_base i rn_value ft)
        | Op.str ↦ complete 31 0 latency (
            write_base i rn_value
              (set_memory (write64 (indexed_address i rn_value) rd_value ft.mem) ft))
        | Op.b ↦ jump (add64 pc i.branch_offset) ft
        | Op.b_cond ↦ branch_if (evaluate_condition i.cond p) i pc ft
        | Op.svc ↦ handle_syscall ft
        | Op.adrp ↦ complete i.rd (add64 (pc / 2 ^ 12 * 2 ^ 12) (shl64 i.imm 12)) 0 ft
        | Op.movz ↦ complete i.rd (shl64 i.imm i.shift) 0 ft
        | Op.movk ↦
            complete i.rd
              (bit_or (bit_and rd_value (not64 (shl64 0xFFFF i.shift))) (shl64 i.imm i.shift)) 0 ft
        | Op.movn ↦ complete i.rd (not64 (shl64 i.imm i.shift)) 0 ft
        | Op.stp ↦ complete 31 0 latency (execute_stp i rn_value ft)
        | Op.ldp ↦ complete 31 0 latency (execute_ldp i rn_value ft)
        | Op.bl ↦ jump (add64 pc i.branch_offset) (set_register 30 (add64 pc 4) ft)
        | Op.and ↦
            let value = bit_and rn_value operand in
            complete i.rd value latency (flags_if i (update_flags_logical value i.is_64bit) ft)
        | Op.orr ↦ complete i.rd (bit_or rn_value operand) latency ft
        | Op.eor ↦ complete i.rd (bit_xor rn_value operand) latency ft
        | Op.bic ↦
            let value = execute_bic rn_value rm_value in
            complete i.rd value latency (flags_if i (update_flags_logical value i.is_64bit) ft)
        | Op.orn ↦ complete i.rd (execute_orn rn_value rm_value) latency ft
        | Op.eon ↦ complete i.rd (execute_eon rn_value rm_value) latency ft
        | Op.ret ↦ jump (read_reg 30 ft.regs) ft
        | Op.madd ↦ complete i.rd (execute_madd ra_value rn_value rm_value) latency ft
        | Op.msub ↦ complete i.rd (execute_msub ra_value rn_value rm_value) latency ft
        | Op.csel ↦ complete i.rd (execute_csel i p rn_value rm_value) 0 ft
        | Op.csinc ↦ complete i.rd (execute_csinc i p rn_value rm_value) 0 ft
        | Op.ubfm ↦ complete i.rd (execute_ubfm i rn_value) 0 ft
        | Op.sbfm ↦ complete i.rd (execute_sbfm i rn_value) 0 ft
        | Op.lslv ↦ complete i.rd (execute_lslv rn_value rm_value) 0 ft
        | Op.lsrv ↦ complete i.rd (execute_lsrv rn_value rm_value) 0 ft
        | Op.asrv ↦ complete i.rd (execute_asrv rn_value rm_value) 0 ft
        | Op.cbz ↦ branch_if (rd_value == 0) i pc ft
        | Op.cbnz ↦ branch_if (not (rd_value == 0)) i pc ft
        | Op.tbz ↦ branch_if (bit == 0) i pc ft
        | Op.tbnz ↦ branch_if (not (bit == 0)) i pc ft
        | Op.ccmp ↦ complete 31 0 0 (execute_ccmp i rn_value rm_value ft)
        | Op.nop ↦ complete 31 0 0 ft
        | Op.mrs ↦ complete 31 0 0 ft
        | Op.dup ↦ complete 31 0 0 ft
        | Op.adr ↦ complete i.rd (add64 pc i.imm) 0 ft
        | Op.ldrb ↦ execute_ldrb i rn_value latency ft
        | Op.strb ↦ execute_strb i rn_value latency ft
        | Op.ldrh ↦ execute_ldrh i rn_value latency ft
        | Op.strh ↦ execute_strh i rn_value latency ft
        | Op.ldrsw ↦ execute_ldrsw i rn_value latency ft
        | _ ↦ complete 31 0 0 (record ft { unhandled_count = add64 ft.unhandled_count 1 })
      ]

  unfoldable pub tick : FastTiming S → FastTiming S
  unfolding execute_instruction
  tick ft =
      let counted = record ft { cycle_count = add64 ft.cycle_count 1 } in
      let i = decode (read32 ft.pc ft.mem) in
      let executed = execute_instruction i ft.pc counted in
      if ft.halted
      then ft
      else if at_limit ft
      then record ft { halted = true; exit_code = 0 }
      else if is_unknown i.op
      then record counted { halted = true; exit_code = minus_one }
      else record executed { instr_count = add64 executed.instr_count 1 }

  -- The loop of `Run` on fuel, without the message that it prints at the end.
  unfoldable pub run_fast : ℕ → FastTiming S → Option (ℕ × FastTiming S)
  unfolding tick
  run_fast zero ft = if ft.halted then some (ft.exit_code, ft) else none
  run_fast (suc fuel) ft =
      let rest = run_fast fuel (tick ft) in if ft.halted then some (ft.exit_code, ft) else rest
