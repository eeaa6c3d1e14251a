-- ===== src/Insts.antt =====
-- insts/decoder.go: the types of a decoded instruction. A uint8 field holds a number, and an int64
-- field holds the two's complement pattern of its value, a number below 2 ^ 64.
mod Tests
pub mod Classify
pub mod Branches
pub mod Memory
pub mod Data
pub mod Simd
pub mod Bitmask
pub mod Decoder
pub mod Classes
pub mod Encoding
pub mod Bounds
use m1sim.Base.{ℕ, Bool, false}

pub data Op : Type 0 where
  unknown add sub and orr eor b bl b_cond br blr ret ldr str svc brk : Op
  adr adrp ldr_lit : Op
  movz movn movk : Op
  ldp stp : Op
  ldrb strb ldrsb ldrh strh ldrsh ldrsw : Op
  vadd vsub vmul ldrq strq vmov vfadd vfsub vfmul dup : Op
  csel csinc csinv csneg : Op
  udiv sdiv : Op
  lslv lsrv asrv rorv : Op
  sbfm bfm ubfm : Op
  madd msub : Op
  ccmn ccmp : Op
  tbz tbnz : Op
  cbz cbnz nop : Op
  extr mrs bic orn eon : Op

pub data Format : Type 0 where
  unknown dp_imm dp_reg branch branch_cond branch_reg load_store load_store_lit : Format
  load_store_pair pc_rel move_wide exception simd_reg simd_load_store simd_copy : Format
  cond_select data_proc_2src data_proc_3src test_branch compare_branch logical_imm : Format
  bitfield cond_cmp extract system_reg : Format

pub data Arrangement : Type 0 where
  arr_8b arr_16b arr_4h arr_8h arr_2s arr_4s arr_2d : Arrangement

pub data IndexMode : Type 0 where
  index_none index_reg_base index_post index_pre index_signed : IndexMode

-- `cond`, `shift_type` and the register numbers are uint8 values; `branch_offset` and `signed_imm`
-- are int64 patterns.
pub record Instruction : Type 0 where
  pub op : Op
  pub format : Format
  pub is_64bit : Bool
  pub set_flags : Bool
  pub rd : ℕ
  pub rn : ℕ
  pub rm : ℕ
  pub imm : ℕ
  pub imm2 : ℕ
  pub shift : ℕ
  pub branch_offset : ℕ
  pub cond : ℕ
  pub shift_type : ℕ
  pub shift_amount : ℕ
  pub index_mode : IndexMode
  pub signed_imm : ℕ
  pub rt2 : ℕ
  pub is_simd : Bool
  pub arrangement : Arrangement
  pub is_float : Bool
  pub sys_reg : ℕ

-- `Instruction{Op: OpUnknown, Format: FormatUnknown}`: every other field is Go's zero value.
abbrev pub blank : Instruction
blank = record {
  op = Op.unknown;
  format = Format.unknown;
  is_64bit = false;
  set_flags = false;
  rd = 0;
  rn = 0;
  rm = 0;
  imm = 0;
  imm2 = 0;
  shift = 0;
  branch_offset = 0;
  cond = 0;
  shift_type = 0;
  shift_amount = 0;
  index_mode = IndexMode.index_none;
  signed_imm = 0;
  rt2 = 0;
  is_simd = false;
  arrangement = Arrangement.arr_8b;
  is_float = false;
  sys_reg = 0;
}
