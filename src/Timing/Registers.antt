-- ===== src/Timing/Registers.antt =====
-- timing/pipeline/registers.go: the pipeline registers that the hazard unit and the write-back stage
-- read. A pointer to an instruction is an Option.
use m1sim.Base.{ℕ, Bool, false, Option, none}
use m1sim.Insts.{Instruction}

pub record IdEx : Type 0 where
  pub valid : Bool
  pub pc : ℕ
  pub inst : Option Instruction
  pub rn_value : ℕ
  pub rm_value : ℕ
  pub rd : ℕ
  pub rn : ℕ
  pub rm : ℕ
  pub mem_read : Bool
  pub mem_write : Bool
  pub reg_write : Bool
  pub mem_to_reg : Bool
  pub is_branch : Bool
  pub predicted_taken : Bool
  pub predicted_target : ℕ
  pub early_resolved : Bool
  pub is_fused : Bool
  pub fused_rn_val : ℕ
  pub fused_rm_val : ℕ
  pub fused_is_64 : Bool
  pub fused_is_imm : Bool
  pub fused_imm_val : ℕ

pub record ExMem : Type 0 where
  pub valid : Bool
  pub pc : ℕ
  pub inst : Option Instruction
  pub alu_result : ℕ
  pub store_value : ℕ
  pub store_value2 : ℕ
  pub rd : ℕ
  pub mem_read : Bool
  pub mem_write : Bool
  pub reg_write : Bool
  pub mem_to_reg : Bool
  pub is_fused : Bool
  pub sets_flags : Bool
  pub flag_n : Bool
  pub flag_z : Bool
  pub flag_c : Bool
  pub flag_v : Bool

pub record MemWb : Type 0 where
  pub valid : Bool
  pub pc : ℕ
  pub inst : Option Instruction
  pub alu_result : ℕ
  pub mem_data : ℕ
  pub mem_data2 : ℕ
  pub rd : ℕ
  pub reg_write : Bool
  pub mem_to_reg : Bool
  pub is_fused : Bool

abbrev pub empty_ex_mem : ExMem
empty_ex_mem = record {
  valid = false;
  pc = 0;
  inst = none;
  alu_result = 0;
  store_value = 0;
  store_value2 = 0;
  rd = 0;
  mem_read = false;
  mem_write = false;
  reg_write = false;
  mem_to_reg = false;
  is_fused = false;
  sets_flags = false;
  flag_n = false;
  flag_z = false;
  flag_c = false;
  flag_v = false;
}

abbrev pub empty_mem_wb : MemWb
empty_mem_wb = record {
  valid = false;
  pc = 0;
  inst = none;
  alu_result = 0;
  mem_data = 0;
  mem_data2 = 0;
  rd = 0;
  reg_write = false;
  mem_to_reg = false;
  is_fused = false;
}
