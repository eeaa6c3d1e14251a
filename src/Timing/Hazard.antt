-- ===== src/Timing/Hazard.antt =====
-- timing/pipeline/hazard.go: forwarding, load-use hazards and stalls.
pub mod Forwarding
pub mod LoadUse
use m1sim.Base.{ℕ, Bool, true, false, ◌&&◌, ◌||◌, ◌==◌, if◌then◌else◌, Option, none, some}
use m1sim.Insts.{Op, Instruction}
use m1sim.Timing.Registers.{IdEx, ExMem, MemWb}

pub data ForwardSource : Type 0 where
  forward_none forward_from_exmem forward_from_memwb forward_from_memwb_rt2 : ForwardSource

pub record ForwardingResult : Type 0 where
  pub forward_rn : ForwardSource
  pub forward_rm : ForwardSource
  pub forward_rd : ForwardSource

pub record StallResult : Type 0 where
  pub stall_if : Bool
  pub stall_id : Bool
  pub insert_bubble_ex : Bool
  pub flush_if : Bool
  pub flush_id : Bool

-- `inst != nil && inst.Op == insts.OpLDP`
abbrev pub is_ldp : Option Instruction → Bool
is_ldp none = false
is_ldp (some i) = elim i.op [ Op.ldp ↦ true | _ ↦ false ]

-- Read only behind a test that there is an instruction.
abbrev pub rt2_of : Option Instruction → ℕ
rt2_of none = 0
rt2_of (some i) = i.rt2

unfoldable pub detect_forward_for_reg : ℕ → ExMem → MemWb → ForwardSource
detect_forward_for_reg reg exmem memwb =
    if reg == 31
    then forward_none
    else if exmem.valid && exmem.reg_write && exmem.rd == reg
    then forward_from_exmem
    else if memwb.valid && memwb.reg_write && memwb.rd == reg
    then forward_from_memwb
    else if memwb.valid && is_ldp memwb.inst && rt2_of memwb.inst == reg
    then forward_from_memwb_rt2
    else forward_none

unfoldable pub detect_forwarding : IdEx → ExMem → MemWb → ForwardingResult
unfolding detect_forward_for_reg
detect_forwarding idex exmem memwb =
    let source = λ (reg : ℕ). detect_forward_for_reg reg exmem memwb in
    if idex.valid
    then record {
      forward_rn = source idex.rn;
      forward_rm = source idex.rm;
      forward_rd = if idex.mem_write then source idex.rd else forward_none;
    }
    else record { forward_rn = forward_none; forward_rm = forward_none; forward_rd = forward_none }

unfoldable pub detect_load_use_hazard_decoded : ℕ → ℕ → ℕ → Bool → Bool → Bool
detect_load_use_hazard_decoded load_rd next_rn next_rm uses_rn uses_rm =
    if load_rd == 31
    then false
    else (uses_rn && load_rd == next_rn) || (uses_rm && load_rd == next_rm)

unfoldable pub detect_load_use_hazard_ldp_rt2 : ℕ → ℕ → ℕ → Bool → Bool → Bool
detect_load_use_hazard_ldp_rt2 ldp_rt2 next_rn next_rm uses_rn uses_rm =
    if ldp_rt2 == 31
    then false
    else (uses_rn && ldp_rt2 == next_rn) || (uses_rm && ldp_rt2 == next_rm)

unfoldable pub compute_stalls : Bool → Bool → StallResult
compute_stalls load_use_hazard branch_taken = record {
  stall_if = load_use_hazard;
  stall_id = load_use_hazard;
  insert_bubble_ex = load_use_hazard;
  flush_if = branch_taken;
  flush_id = branch_taken;
}

unfoldable pub get_forwarded_value : ForwardSource → ℕ → ExMem → MemWb → ℕ
get_forwarded_value source original exmem memwb = elim source [
  | forward_from_exmem ↦ exmem.alu_result
  | forward_from_memwb ↦ if memwb.mem_to_reg then memwb.mem_data else memwb.alu_result
  | forward_from_memwb_rt2 ↦ memwb.mem_data2
  | forward_none ↦ original
]
