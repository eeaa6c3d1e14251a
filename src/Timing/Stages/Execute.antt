-- ===== src/Timing/Stages/Execute.antt =====
-- timing/pipeline/stages.go: the execute stage. It sets PSTATE, so it gives the registers back.
use m1sim.Base.{
  ℕ, Bool, true, false, ◌*◌, ◌&&◌, ◌==◌, if◌then◌else◌, Option, none, some, u32, u64, add64, sub64,
  add32, sub32, shl64, not64, bit_and, bit_or,
}
use m1sim.Insts.{Op, Format, IndexMode, Instruction}
use m1sim.Emu.RegFile.{Pstate, RegFile, read_reg, no_flags}
use m1sim.Timing.Registers.{IdEx}
use m1sim.Timing.Stages.Arithmetic.{
  evaluate_condition_with_flags, check_condition_stage, shift_rm, execute_add, execute_sub,
  execute_and, execute_orr, execute_eor, execute_bic, execute_orn, execute_eon, compute_add_flags,
  compute_sub_flags_of, compute_sub_flags,
}
use m1sim.Timing.Stages.Bitfield.{execute_bitfield, execute_bfm}

-- The five flag fields of the source: no flags, or the flags.
pub record ExecuteResult : Type 0 where
  pub alu_result : ℕ
  pub store_value : ℕ
  pub branch_taken : Bool
  pub branch_target : ℕ
  pub sets_flags : Bool
  pub flags : Pstate

abbrev pub no_result : ExecuteResult
no_result = record {
  alu_result = 0;
  store_value = 0;
  branch_taken = false;
  branch_target = 0;
  sets_flags = false;
  flags = no_flags;
}

unfoldable pub is_cmp : Option Instruction → Bool
is_cmp none = false
is_cmp (some i) = elim i.op [ Op.sub ↦ i.set_flags && i.rd == 31 | _ ↦ false ]

unfoldable pub is_bcond : Option Instruction → Bool
is_bcond none = false
is_bcond (some i) = elim i.op [ Op.b_cond ↦ true | _ ↦ false ]

-- A result with no more than a value for the register.
abbrev pub gives : ℕ → ExecuteResult
gives value = record no_result { alu_result = value }

-- A flag-setting operation writes PSTATE and passes the flags on.
unfoldable pub with_flags : Bool → ℕ → Pstate → RegFile → ExecuteResult × RegFile
with_flags set_flags value flags r =
    if set_flags
    then (
      record no_result { alu_result = value; sets_flags = true; flags = flags },
      record r { pstate = flags },
    )
    else (gives value, r)

-- `ALUResult` of a load or store: the address.
unfoldable pub effective_address : Instruction → ℕ → RegFile → ℕ
effective_address i rn r =
    let base = if i.rn == 31 then r.sp else rn in
    elim i.index_mode [
      | IndexMode.index_pre ↦ add64 base i.signed_imm
      | IndexMode.index_post ↦ base
      | _ ↦ elim i.format [
        | Format.load_store_pair ↦ add64 base i.signed_imm
        | _ ↦ add64 base i.imm
      ]
    ]

unfoldable pub accesses : Instruction → ℕ → ℕ → RegFile → ExecuteResult
unfolding effective_address
accesses i rn rm r = record no_result { alu_result = effective_address i rn r; store_value = rm }

unfoldable pub jumps : ℕ → ℕ → ExecuteResult
jumps target link = record no_result {
  branch_taken = true;
  branch_target = target;
  alu_result = link;
}

-- The condition of B.cond: on the operands of a fused compare, on forwarded flags, or on PSTATE.
unfoldable pub condition_met : IdEx → ℕ → Bool → Pstate → RegFile → Bool
unfolding compute_sub_flags evaluate_condition_with_flags check_condition_stage
condition_met idex cond forward_flags fwd r =
    let op2 = if idex.fused_is_imm then idex.fused_imm_val else idex.fused_rm_val in
    if idex.is_fused
    then evaluate_condition_with_flags cond
        (compute_sub_flags idex.fused_rn_val op2 idex.fused_is_64)
    else if forward_flags
    then evaluate_condition_with_flags cond fwd
    else check_condition_stage cond r

-- Ra of MADD and MSUB: the register, or for 31 the Rm value that came with the instruction.
abbrev pub ra_value : IdEx → Instruction → RegFile → ℕ
ra_value idex i r = if i.rt2 == 31 then idex.rm_value else read_reg i.rt2 r

-- The `switch inst.Op`, where rm is the shifted operand.
unfoldable pub execute_op :
    IdEx → Instruction → ℕ → ℕ → Bool → Pstate → RegFile → ExecuteResult × RegFile
unfolding with_flags accesses jumps
execute_op idex i rn rm forward_flags fwd r = elim i.op [
  | Op.add ↦
      let sum = execute_add i rn rm in with_flags i.set_flags sum (compute_add_flags i rn rm sum) r
  | Op.sub ↦
      let diff = execute_sub i rn rm in
      with_flags i.set_flags diff (compute_sub_flags_of i rn rm diff) r
  | Op.and ↦ (gives (execute_and i rn rm), r)
  | Op.orr ↦ (gives (execute_orr i rn rm), r)
  | Op.eor ↦ (gives (execute_eor i rn rm), r)
  | Op.bic ↦ (gives (execute_bic i rn rm), r)
  | Op.orn ↦ (gives (execute_orn i rn rm), r)
  | Op.eon ↦ (gives (execute_eon i rn rm), r)
  | Op.ldr ↦ (accesses i rn rm r, r)
  | Op.str ↦ (accesses i rn rm r, r)
  | Op.ldp ↦ (accesses i rn rm r, r)
  | Op.stp ↦ (accesses i rn rm r, r)
  | Op.ldrb ↦ (accesses i rn rm r, r)
  | Op.strb ↦ (accesses i rn rm r, r)
  | Op.ldrsb ↦ (accesses i rn rm r, r)
  | Op.ldrh ↦ (accesses i rn rm r, r)
  | Op.strh ↦ (accesses i rn rm r, r)
  | Op.ldrsh ↦ (accesses i rn rm r, r)
  | Op.b ↦ (jumps (add64 idex.pc i.branch_offset) 0, r)
  | Op.bl ↦ (jumps (add64 idex.pc i.branch_offset) (add64 idex.pc 4), r)
  | Op.b_cond ↦ (
    if condition_met idex i.cond forward_flags fwd r
        then jumps (add64 idex.pc i.branch_offset) 0
        else no_result,
    r,
  )
  | Op.br ↦ (jumps rn 0, r)
  | Op.blr ↦ (jumps rn (add64 idex.pc 4), r)
  | Op.ret ↦ (jumps rn 0, r)
  | Op.movz ↦ (gives (shl64 i.imm i.shift), r)
  | Op.movn ↦
      let inverted = not64 (shl64 i.imm i.shift) in
      (gives (if i.is_64bit then inverted else u32 inverted), r)
  | Op.movk ↦
      let mask = shl64 0xFFFF i.shift in
      (gives (bit_or (bit_and rn (not64 mask)) (bit_and (shl64 i.imm i.shift) mask)), r)
  | Op.adr ↦ (gives (add64 idex.pc i.branch_offset), r)
  | Op.adrp ↦ (gives (add64 (bit_and idex.pc (not64 0xFFF)) i.branch_offset), r)
  | Op.madd ↦
      let ra = ra_value idex i r in
      (
        gives (
            if i.is_64bit
            then add64 ra (u64 (rn * rm))
            else add32 (u32 ra) (u32 (u32 rn * u32 rm))),
        r,
      )
  | Op.msub ↦
      let ra = ra_value idex i r in
      (
        gives (
            if i.is_64bit
            then sub64 ra (u64 (rn * rm))
            else sub32 (u32 ra) (u32 (u32 rn * u32 rm))),
        r,
      )
  | Op.ubfm ↦ (gives (execute_bitfield i rn false), r)
  | Op.sbfm ↦ (gives (execute_bitfield i rn true), r)
  | Op.bfm ↦ (gives (execute_bfm i rn rm), r)
  | _ ↦ (no_result, r)
]

unfoldable pub execute_with_flags : IdEx → ℕ → ℕ → Bool → Pstate → RegFile → ExecuteResult × RegFile
unfolding execute_op
execute_with_flags idex rn_value rm_value forward_flags fwd r = elim idex.inst [
  | none ↦ (no_result, r)
  | some i ↦
      if idex.valid
      then execute_op idex i rn_value (shift_rm i rm_value) forward_flags fwd r
      else (no_result, r)
]

unfoldable pub execute : IdEx → ℕ → ℕ → RegFile → ExecuteResult × RegFile
unfolding execute_with_flags
execute idex rn_value rm_value r = execute_with_flags idex rn_value rm_value false no_flags r
