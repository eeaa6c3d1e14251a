-- ===== src/Timing/Stages/Alone.antt =====
-- timing/pipeline/pipeline.go, `tickSingleIssue`: what one stage latches for the next. `alone` is an
-- instruction that flows through the stages with no other in flight, so nothing is forwarded.
pub mod Registers
pub mod DpReg
pub mod LoadStore
pub mod Operations
use m1sim.Base.{ℕ, Bool, true, false, if◌then◌else◌, some}
use m1sim.Insts.{Op, Instruction}
use m1sim.Emu.RegFile.{RegFile, read_reg}
use m1sim.Emu.Memory.{Memory}
use m1sim.Timing.Registers.{IdEx, ExMem, MemWb}
use m1sim.Timing.Hazard.{rt2_of}
use m1sim.Timing.Stages.{DecodeResult, decode_result}
use m1sim.Timing.Stages.Execute.{ExecuteResult, execute}
use m1sim.Timing.Stages.MemoryStage.{MemoryResult, memory_access, is_stp}
use m1sim.Timing.Writeback.{writeback_slot}

-- `nextIDEX`, for an instruction that was predicted as a branch not taken.
abbrev pub latch_decode : ℕ → DecodeResult → IdEx
latch_decode pc d = record {
  valid = true;
  pc = pc;
  inst = some d.inst;
  rn_value = d.rn_value;
  rm_value = d.rm_value;
  rd = d.rd;
  rn = d.rn;
  rm = d.rm;
  mem_read = d.mem_read;
  mem_write = d.mem_write;
  reg_write = d.reg_write;
  mem_to_reg = d.mem_to_reg;
  is_branch = d.is_branch;
  predicted_taken = false;
  predicted_target = 0;
  early_resolved = false;
  is_fused = false;
  fused_rn_val = 0;
  fused_rm_val = 0;
  fused_is_64 = false;
  fused_is_imm = false;
  fused_imm_val = 0;
}

-- `nextEXMEM`, with the store values read from the registers.
abbrev pub latch_execute : IdEx → ExecuteResult → RegFile → ExMem
latch_execute idex res r = record {
  valid = true;
  pc = idex.pc;
  inst = idex.inst;
  alu_result = res.alu_result;
  store_value = if idex.mem_write then read_reg idex.rd r else res.store_value;
  store_value2 = if is_stp idex.inst then read_reg (rt2_of idex.inst) r else 0;
  rd = idex.rd;
  mem_read = idex.mem_read;
  mem_write = idex.mem_write;
  reg_write = idex.reg_write;
  mem_to_reg = idex.mem_to_reg;
  is_fused = false;
  sets_flags = res.sets_flags;
  flag_n = res.flags.n;
  flag_z = res.flags.z;
  flag_c = res.flags.c;
  flag_v = res.flags.v;
}

-- `nextMEMWB`
abbrev pub latch_memory : ExMem → MemoryResult → MemWb
latch_memory exmem res = record {
  valid = true;
  pc = exmem.pc;
  inst = exmem.inst;
  alu_result = exmem.alu_result;
  mem_data = res.mem_data;
  mem_data2 = res.mem_data2;
  rd = exmem.rd;
  reg_write = exmem.reg_write;
  mem_to_reg = exmem.mem_to_reg;
  is_fused = exmem.is_fused;
}

unfoldable pub alone : Instruction → ℕ → RegFile → Memory → RegFile × Memory
alone i pc r m =
    let idex = latch_decode pc (decode_result i r) in
    let (res, executed) = execute idex idex.rn_value idex.rm_value r in
    let exmem = latch_execute idex res executed in
    let (read, accessed) = memory_access exmem m in
    let (written, retired) = writeback_slot (latch_memory exmem read) executed in
    (written, accessed)
