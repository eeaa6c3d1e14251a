-- ===== src/Timing/Latency.antt =====
-- timing/latency/config.go and timing/latency/latency.go: how long an instruction takes.
pub mod Bounds
use m1sim.Base.{ℕ, Bool, true, false, ◌==◌, ltb, if◌then◌else◌, Option, none, some}
use m1sim.Insts.{Op, Instruction}

pub record TimingConfig : Type 0 where
  pub alu_latency : ℕ
  pub branch_latency : ℕ
  pub branch_mispredict_penalty : ℕ
  pub load_latency : ℕ
  pub store_latency : ℕ
  pub multiply_latency : ℕ
  pub divide_latency_min : ℕ
  pub divide_latency_max : ℕ
  pub syscall_latency : ℕ
  pub simd_int_latency : ℕ
  pub simd_float_latency : ℕ
  pub simd_load_latency : ℕ
  pub simd_store_latency : ℕ

abbrev pub default_timing_config : TimingConfig
default_timing_config = record {
  alu_latency = 1;
  branch_latency = 1;
  branch_mispredict_penalty = 14;
  load_latency = 2;
  store_latency = 1;
  multiply_latency = 3;
  divide_latency_min = 10;
  divide_latency_max = 15;
  syscall_latency = 1;
  simd_int_latency = 2;
  simd_float_latency = 3;
  simd_load_latency = 5;
  simd_store_latency = 1;
}

-- The errors of `Validate`, by the field that they name.
pub data ConfigError : Type 0 where
  alu_zero : ConfigError
  branch_zero : ConfigError
  load_zero : ConfigError
  store_zero : ConfigError
  syscall_zero : ConfigError
  divide_order : ConfigError

unfoldable pub validate : TimingConfig → Option ConfigError
validate c =
    if c.alu_latency == 0
    then some ConfigError.alu_zero
    else if c.branch_latency == 0
    then some ConfigError.branch_zero
    else if c.load_latency == 0
    then some ConfigError.load_zero
    else if c.store_latency == 0
    then some ConfigError.store_zero
    else if c.syscall_latency == 0
    then some ConfigError.syscall_zero
    else if ltb c.divide_latency_max c.divide_latency_min
    then some ConfigError.divide_order
    else none

unfoldable pub get_latency : TimingConfig → Option Instruction → ℕ
get_latency c none = 1
get_latency c (some i) = elim i.op [
  | Op.add ↦ c.alu_latency
  | Op.sub ↦ c.alu_latency
  | Op.and ↦ c.alu_latency
  | Op.orr ↦ c.alu_latency
  | Op.eor ↦ c.alu_latency
  | Op.bic ↦ c.alu_latency
  | Op.orn ↦ c.alu_latency
  | Op.eon ↦ c.alu_latency
  | Op.b ↦ c.branch_latency
  | Op.bl ↦ c.branch_latency
  | Op.b_cond ↦ c.branch_latency
  | Op.br ↦ c.branch_latency
  | Op.blr ↦ c.branch_latency
  | Op.ret ↦ c.branch_latency
  | Op.ldr ↦ c.load_latency
  | Op.ldp ↦ c.load_latency
  | Op.ldrb ↦ c.load_latency
  | Op.ldrsb ↦ c.load_latency
  | Op.ldrh ↦ c.load_latency
  | Op.ldrsh ↦ c.load_latency
  | Op.ldrsw ↦ c.load_latency
  | Op.ldr_lit ↦ c.load_latency
  | Op.str ↦ c.store_latency
  | Op.stp ↦ c.store_latency
  | Op.strb ↦ c.store_latency
  | Op.strh ↦ c.store_latency
  | Op.madd ↦ c.multiply_latency
  | Op.msub ↦ c.multiply_latency
  | Op.svc ↦ c.syscall_latency
  | Op.vadd ↦ c.simd_int_latency
  | Op.vsub ↦ c.simd_int_latency
  | Op.vmul ↦ c.simd_int_latency
  | Op.vmov ↦ c.simd_int_latency
  | Op.vfadd ↦ c.simd_float_latency
  | Op.vfsub ↦ c.simd_float_latency
  | Op.vfmul ↦ c.simd_float_latency
  | Op.ldrq ↦ c.simd_load_latency
  | Op.strq ↦ c.simd_store_latency
  | _ ↦ 1
]

unfoldable pub get_min_latency : TimingConfig → Option Instruction → ℕ
unfolding get_latency
get_min_latency c none = 1
get_min_latency c (some i) = get_latency c (some i)

unfoldable pub get_max_latency : TimingConfig → Option Instruction → ℕ
unfolding get_latency
get_max_latency c none = 1
get_max_latency c (some i) = get_latency c (some i)

unfoldable pub is_load_op : Option Instruction → Bool
is_load_op none = false
is_load_op (some i) = elim i.op [
  | Op.ldr ↦ true
  | Op.ldp ↦ true
  | Op.ldrb ↦ true
  | Op.ldrsb ↦ true
  | Op.ldrh ↦ true
  | Op.ldrsh ↦ true
  | Op.ldrsw ↦ true
  | Op.ldr_lit ↦ true
  | Op.ldrq ↦ true
  | _ ↦ false
]

unfoldable pub is_store_op : Option Instruction → Bool
is_store_op none = false
is_store_op (some i) = elim i.op [
  | Op.str ↦ true
  | Op.stp ↦ true
  | Op.strb ↦ true
  | Op.strh ↦ true
  | Op.strq ↦ true
  | _ ↦ false
]

unfoldable pub is_memory_op : Option Instruction → Bool
is_memory_op none = false
is_memory_op (some i) = elim i.op [
  | Op.ldr ↦ true
  | Op.ldp ↦ true
  | Op.ldrb ↦ true
  | Op.ldrsb ↦ true
  | Op.ldrh ↦ true
  | Op.ldrsh ↦ true
  | Op.ldrsw ↦ true
  | Op.ldr_lit ↦ true
  | Op.ldrq ↦ true
  | Op.str ↦ true
  | Op.stp ↦ true
  | Op.strb ↦ true
  | Op.strh ↦ true
  | Op.strq ↦ true
  | _ ↦ false
]

unfoldable pub is_branch_op : Option Instruction → Bool
is_branch_op none = false
is_branch_op (some i) = elim i.op [
  | Op.b ↦ true
  | Op.bl ↦ true
  | Op.b_cond ↦ true
  | Op.br ↦ true
  | Op.blr ↦ true
  | Op.ret ↦ true
  | _ ↦ false
]

unfoldable pub is_simd_op : Option Instruction → Bool
is_simd_op none = false
is_simd_op (some i) = elim i.op [
  | Op.vadd ↦ true
  | Op.vsub ↦ true
  | Op.vmul ↦ true
  | Op.vmov ↦ true
  | Op.vfadd ↦ true
  | Op.vfsub ↦ true
  | Op.vfmul ↦ true
  | Op.ldrq ↦ true
  | Op.strq ↦ true
  | _ ↦ false
]
