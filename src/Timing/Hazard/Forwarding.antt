-- ===== src/Timing/Hazard/Forwarding.antt =====
-- Forwarding against the write-back stage of timing/pipeline/stages.go.
use m1sim.Base.{
  ℕ, Bool, true, false, ◌==◌, ◌≡◌, ◌≢◌, arith, not, ◌&&◌, if◌then◌else◌, inl, inr, Bool-cases,
  Option, none, some,
}
use m1sim.Insts.{IndexMode, Instruction}
use m1sim.Emu.RegFile.{RegFile, read_reg, write_reg}
use m1sim.Timing.Registers.{ExMem, MemWb}
use m1sim.Timing.Hazard.{is_ldp, rt2_of, detect_forward_for_reg, get_forwarded_value}
use m1sim.Timing.Writeback.{perform_base_writeback, writeback_slot}

-- What the memory stage passes on of an instruction that loads nothing.
abbrev pub passed_on : ExMem → MemWb
passed_on e = record {
  valid = e.valid;
  pc = e.pc;
  inst = e.inst;
  alu_result = e.alu_result;
  mem_data = 0;
  mem_data2 = 0;
  rd = e.rd;
  reg_write = e.reg_write;
  mem_to_reg = e.mem_to_reg;
  is_fused = e.is_fused;
}

-- The instruction does not write its base register.
abbrev pub keeps_base : Option Instruction → Bool
keeps_base none = true
keeps_base (some i) = elim i.index_mode [
  | IndexMode.index_pre ↦ false
  | IndexMode.index_post ↦ false
  | _ ↦ true
]

base_writeback-keeps_base :
    (slot : MemWb) (r : RegFile) → keeps_base slot.inst ≡ true → perform_base_writeback slot r ≡ r
unfolding perform_base_writeback
base_writeback-keeps_base slot r h = ground arith

-- A register after the write-back of an instruction that loads nothing.
read_reg-writeback_passed_on :
    (reg : ℕ) (e : ExMem) (r : RegFile)
    → e.mem_to_reg ≡ false
    → keeps_base e.inst ≡ true
    → read_reg reg (writeback_slot (passed_on e) r).0 ≡ (
        if not (reg == 31) && e.valid && e.reg_write && e.rd == reg
        then e.alu_result
        else read_reg reg r)
unfolding read_reg writeback_slot write_reg
read_reg-writeback_passed_on reg e r h k =
    rw (base_writeback-keeps_base (passed_on e) r k) (ground arith)

-- The last of the two writes of a load pair is to another register than the first.
abbrev pub WritesPair : MemWb → Type 0
WritesPair w = (w.reg_write ≡ true) × (w.mem_to_reg ≡ true) × (w.rd ≢ 31) × (w.rd ≢ rt2_of w.inst)

-- A register after the write-back of any instruction that keeps its base.
read_reg-writeback_slot :
    (reg : ℕ) (w : MemWb) (r : RegFile)
    → keeps_base w.inst ≡ true
    → (is_ldp w.inst ≡ true → WritesPair w)
    → read_reg reg (writeback_slot w r).0 ≡ (
        if reg == 31
        then 0
        else if w.valid && w.reg_write && w.rd == reg
        then (if w.mem_to_reg then w.mem_data else w.alu_result)
        else if w.valid && is_ldp w.inst && rt2_of w.inst == reg
        then w.mem_data2
        else read_reg reg r)
unfolding read_reg writeback_slot write_reg
read_reg-writeback_slot reg w r k l = elim (Bool-cases (is_ldp w.inst)) [
  | inl ldp ↦
      let (writes, loads, there, apart) = l ldp in
      rw (base_writeback-keeps_base w r k, ldp) (ground arith)
  | inr other ↦ rw (base_writeback-keeps_base w r k, other) (ground arith)
]

-- Forwarding gives an operand the value that it has once the two instructions ahead have written
-- back, the older one first, provided that the one in EX/MEM loads nothing, that neither writes its
-- base register, and that a load pair in MEM/WB is marked as writing a register from memory, and
-- writes a register other than 31 first and another one second.
pub get_forwarded_value_lem :
    (reg : ℕ) (exmem : ExMem) (memwb : MemWb) (r : RegFile)
    → exmem.mem_to_reg ≡ false
    → keeps_base exmem.inst ≡ true
    → keeps_base memwb.inst ≡ true
    → (is_ldp memwb.inst ≡ true → WritesPair memwb)
    → get_forwarded_value (detect_forward_for_reg reg exmem memwb) (read_reg reg r) exmem memwb
      ≡ read_reg reg (writeback_slot (passed_on exmem) (writeback_slot memwb r).0).0
unfolding get_forwarded_value detect_forward_for_reg read_reg
get_forwarded_value_lem reg exmem memwb r h k k' l = ground (
  arith,
  read_reg-writeback_passed_on reg exmem (writeback_slot memwb r).0 h k,
  read_reg-writeback_slot reg memwb r k' l,
)
