-- ===== src/Timing/Stages.antt =====
-- timing/pipeline/stages.go: the fetch and decode stages. The decoder's pool of instructions only
-- saves allocations; here each decode gives an instruction of its own.
pub mod Bitfield
pub mod Arithmetic
pub mod Fusion
pub mod Execute
pub mod Alone
pub mod MemoryStage
use m1sim.Base.{ℕ, Bool, true, false, not, ◌&&◌, ◌||◌, ◌==◌, if◌then◌else◌}
use m1sim.Insts.{Op, Instruction}
use m1sim.Insts.Decoder.{decode}
use m1sim.Emu.RegFile.{RegFile, read_reg}
use m1sim.Emu.Memory.{Memory, read32}

-- The word, and whether the fetch was successful.
unfoldable pub fetch : ℕ → Memory → ℕ × Bool
fetch pc m = (read32 pc m, true)

pub record DecodeResult : Type 0 where
  pub inst : Instruction
  pub rn_value : ℕ
  pub rm_value : ℕ
  pub rd : ℕ
  pub rn : ℕ
  pub rm : ℕ
  pub mem_read : Bool
  pub mem_write : Bool
  pub reg_write : Bool
  pub mem_to_reg : Bool
  pub is_branch : Bool
  pub is_syscall : Bool

unfoldable pub is_load_op : Op → Bool
is_load_op op = elim op [
  | Op.ldr ↦ true
  | Op.ldp ↦ true
  | Op.ldrb ↦ true
  | Op.ldrsb ↦ true
  | Op.ldrh ↦ true
  | Op.ldrsh ↦ true
  | Op.ldr_lit ↦ true
  | Op.ldrq ↦ true
  | _ ↦ false
]

unfoldable pub is_store_op : Op → Bool
is_store_op op = elim op [
  | Op.str ↦ true
  | Op.stp ↦ true
  | Op.strb ↦ true
  | Op.strh ↦ true
  | Op.strq ↦ true
  | _ ↦ false
]

-- `inst.Op == insts.OpBL || inst.Op == insts.OpBLR`
abbrev pub is_linking : Op → Bool
is_linking op = elim op [ Op.bl ↦ true | Op.blr ↦ true | _ ↦ false ]

-- The `switch` of `isRegWriteInst`.
abbrev pub writes_a_register : Op → Bool
writes_a_register op = elim op [
  | Op.add ↦ true
  | Op.sub ↦ true
  | Op.and ↦ true
  | Op.orr ↦ true
  | Op.eor ↦ true
  | Op.bic ↦ true
  | Op.orn ↦ true
  | Op.eon ↦ true
  | Op.ldr ↦ true
  | Op.ldp ↦ true
  | Op.ldrb ↦ true
  | Op.ldrsb ↦ true
  | Op.ldrh ↦ true
  | Op.ldrsh ↦ true
  | Op.ldr_lit ↦ true
  | Op.ldrq ↦ true
  | Op.bl ↦ true
  | Op.blr ↦ true
  | Op.movz ↦ true
  | Op.movn ↦ true
  | Op.movk ↦ true
  | Op.adr ↦ true
  | Op.adrp ↦ true
  | Op.madd ↦ true
  | Op.msub ↦ true
  | Op.ubfm ↦ true
  | Op.sbfm ↦ true
  | Op.bfm ↦ true
  | _ ↦ false
]

unfoldable pub is_reg_write_inst : Instruction → Bool
is_reg_write_inst i = if i.rd == 31 && not (is_linking i.op) then false else writes_a_register i.op

unfoldable pub is_branch_inst : Instruction → Bool
is_branch_inst i = elim i.op [
  | Op.b ↦ true
  | Op.bl ↦ true
  | Op.b_cond ↦ true
  | Op.br ↦ true
  | Op.blr ↦ true
  | Op.ret ↦ true
  | _ ↦ false
]

-- `Decode` after `DecodeInto`.
unfoldable pub decode_result : Instruction → RegFile → DecodeResult
decode_result i r = record {
  inst = i;
  rn_value = read_reg i.rn r;
  rm_value = read_reg i.rm r;
  rd = if is_linking i.op then 30 else i.rd;
  rn = i.rn;
  rm = i.rm;
  mem_read = is_load_op i.op;
  mem_write = is_store_op i.op;
  reg_write = is_reg_write_inst i;
  mem_to_reg = is_load_op i.op;
  is_branch = is_branch_inst i;
  is_syscall = elim i.op [ Op.svc ↦ true | _ ↦ false ];
}

unfoldable pub decode_stage : ℕ → RegFile → DecodeResult
unfolding decode_result
decode_stage word r = decode_result (decode word) r
