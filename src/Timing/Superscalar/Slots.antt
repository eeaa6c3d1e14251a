-- ===== src/Timing/Superscalar/Slots.antt =====
-- timing/pipeline/superscalar.go: the ID/EX registers of the second to the eighth slot. They are seven
-- copies of one type; the lines named are those of the second.
use m1sim.Base.{ℕ, Bool, false, ◌≡◌, refl, Option}
use m1sim.Insts.{Instruction}
use m1sim.Timing.Registers.{IdEx}

pub record SlotIdEx : Type 0 where
  pub valid : Bool
  pub pc : ℕ
  pub inst : Option Instruction
  pub rn_value : ℕ
  pub rm_value : ℕ
  pub rd : ℕ
  pub rn : ℕ
  pub rm : ℕ
  pub mem_read : Bool
  pub mem_write : Bool
  pub reg_write : Bool
  pub mem_to_reg : Bool
  pub is_branch : Bool
  pub predicted_taken : Bool
  pub predicted_target : ℕ
  pub early_resolved : Bool

-- The fields of a fused compare that the slots do not have.
abbrev pub unfused : IdEx → IdEx
unfused i = record i {
  is_fused = false;
  fused_rn_val = 0;
  fused_rm_val = 0;
  fused_is_64 = false;
  fused_is_imm = false;
  fused_imm_val = 0;
}

unfoldable pub to_idex : SlotIdEx → IdEx
to_idex s = record {
  valid = s.valid;
  pc = s.pc;
  inst = s.inst;
  rn_value = s.rn_value;
  rm_value = s.rm_value;
  rd = s.rd;
  rn = s.rn;
  rm = s.rm;
  mem_read = s.mem_read;
  mem_write = s.mem_write;
  reg_write = s.reg_write;
  mem_to_reg = s.mem_to_reg;
  is_branch = s.is_branch;
  predicted_taken = s.predicted_taken;
  predicted_target = s.predicted_target;
  early_resolved = s.early_resolved;
  is_fused = false;
  fused_rn_val = 0;
  fused_rm_val = 0;
  fused_is_64 = false;
  fused_is_imm = false;
  fused_imm_val = 0;
}

unfoldable pub from_idex : IdEx → SlotIdEx
from_idex i = record {
  valid = i.valid;
  pc = i.pc;
  inst = i.inst;
  rn_value = i.rn_value;
  rm_value = i.rm_value;
  rd = i.rd;
  rn = i.rn;
  rm = i.rm;
  mem_read = i.mem_read;
  mem_write = i.mem_write;
  reg_write = i.reg_write;
  mem_to_reg = i.mem_to_reg;
  is_branch = i.is_branch;
  predicted_taken = i.predicted_taken;
  predicted_target = i.predicted_target;
  early_resolved = i.early_resolved;
}

-- A register goes through a slot unchanged, but for the fields of a fused compare, which are lost.
pub to_idex-from_idex : (i : IdEx) → to_idex (from_idex i) ≡ unfused i
unfolding to_idex from_idex
to_idex-from_idex i = refl
