-- ===== src/Timing/FastTiming/Values.antt =====
-- timing/pipeline/fast_timing.go: the values that the simplified simulation computes.
use m1sim.Base.{
  ℕ, Bool, true, false, not, ◌*◌, ◌%◌, ◌^◌, ◌&&◌, ◌||◌, ◌==◌, same, ltb, leb, if◌then◌else◌, u32,
  add64, sub64, shr, shl64, asr64, asr32, not64, not32, sext8_64, sext16_64, sext32_64, bit_and,
  bit_or, bit_xor, u8, u16,
}
use m1sim.Insts.{Format, Instruction}
use m1sim.Emu.RegFile.{Pstate}

unfoldable pub execute_add : Instruction → ℕ → ℕ → ℕ
execute_add i rn_value rm_value = elim i.format [
  | Format.dp_reg ↦ add64 rn_value rm_value
  | _ ↦ add64 rn_value i.imm
]

unfoldable pub execute_sub : Instruction → ℕ → ℕ → ℕ
execute_sub i rn_value rm_value = elim i.format [
  | Format.dp_reg ↦ sub64 rn_value rm_value
  | _ ↦ sub64 rn_value i.imm
]

unfoldable pub update_flags_add : ℕ → ℕ → ℕ → Bool → Pstate
update_flags_add op1 op2 result is64 =
    let a = u32 op1 in
    let b = u32 op2 in
    let r32 = u32 result in
    if is64
    then record {
      n = shr result 63 == 1;
      z = result == 0;
      c = ltb result op1;
      v = shr (bit_and (not64 (bit_xor op1 op2)) (bit_xor op1 result)) 63 == 1;
    }
    else record {
      n = shr r32 31 == 1;
      z = r32 == 0;
      c = ltb r32 a;
      v = shr (bit_and (not32 (bit_xor a b)) (bit_xor a r32)) 31 == 1;
    }

unfoldable pub update_flags_sub : ℕ → ℕ → ℕ → Bool → Pstate
update_flags_sub op1 op2 result is64 =
    let a = u32 op1 in
    let b = u32 op2 in
    let r32 = u32 result in
    if is64
    then record {
      n = shr result 63 == 1;
      z = result == 0;
      c = leb op2 op1;
      v = shr (bit_and (bit_xor op1 op2) (bit_xor op1 result)) 63 == 1;
    }
    else record {
      n = shr r32 31 == 1;
      z = r32 == 0;
      c = leb b a;
      v = shr (bit_and (bit_xor a b) (bit_xor a r32)) 31 == 1;
    }

unfoldable pub update_flags_logical : ℕ → Bool → Pstate
update_flags_logical result is64 = record {
  n = if is64 then shr result 63 == 1 else shr (u32 result) 31 == 1;
  z = if is64 then result == 0 else u32 result == 0;
  c = false;
  v = false;
}

-- `value == (cond&1 == 0)`
abbrev pub flag_or_not : ℕ → Bool → Bool
flag_or_not cond flag = same flag (bit_and cond 1 == 0)

unfoldable pub evaluate_condition : ℕ → Pstate → Bool
evaluate_condition cond p =
    let group = bit_and cond 0xE in
    let even = bit_and cond 1 == 0 in
    if group == 0x0
    then flag_or_not cond p.z
    else if group == 0x2
    then flag_or_not cond p.c
    else if group == 0x4
    then flag_or_not cond p.n
    else if group == 0x6
    then flag_or_not cond p.v
    else if group == 0x8
    then (if even then p.c && not p.z else not p.c || p.z)
    else if group == 0xA
    then (if even then same p.n p.v else not (same p.n p.v))
    else if group == 0xC
    then (if even then not p.z && same p.n p.v else p.z || not (same p.n p.v))
    else true

-- The immediate and register forms of AND, ORR and EOR.
abbrev pub logical_operand : Instruction → ℕ → ℕ
logical_operand i rm_value = elim i.format [ Format.dp_reg ↦ rm_value | _ ↦ i.imm ]

abbrev pub execute_bic : ℕ → ℕ → ℕ
execute_bic rn_value rm_value = bit_and rn_value (not64 rm_value)

abbrev pub execute_orn : ℕ → ℕ → ℕ
execute_orn rn_value rm_value = bit_or rn_value (not64 rm_value)

abbrev pub execute_eon : ℕ → ℕ → ℕ
execute_eon rn_value rm_value = bit_xor rn_value (not64 rm_value)

abbrev pub execute_madd : ℕ → ℕ → ℕ → ℕ
execute_madd ra_value rn_value rm_value = add64 ra_value (rn_value * rm_value % 2 ^ 64)

abbrev pub execute_msub : ℕ → ℕ → ℕ → ℕ
execute_msub ra_value rn_value rm_value = sub64 ra_value (rn_value * rm_value % 2 ^ 64)

unfoldable pub execute_csel : Instruction → Pstate → ℕ → ℕ → ℕ
unfolding evaluate_condition
execute_csel i p rn_value rm_value = if evaluate_condition i.cond p then rn_value else rm_value

unfoldable pub execute_csinc : Instruction → Pstate → ℕ → ℕ → ℕ
unfolding evaluate_condition
execute_csinc i p rn_value rm_value =
    if evaluate_condition i.cond p then rn_value else add64 rm_value 1

abbrev pub execute_lslv : ℕ → ℕ → ℕ
execute_lslv rn_value rm_value = shl64 rn_value (bit_and rm_value 63)

abbrev pub execute_lsrv : ℕ → ℕ → ℕ
execute_lsrv rn_value rm_value = shr rn_value (bit_and rm_value 63)

abbrev pub execute_asrv : ℕ → ℕ → ℕ
execute_asrv rn_value rm_value = asr64 rn_value (bit_and rm_value 63)

-- `(uint64(1) << width) - 1`
abbrev pub low_mask : ℕ → ℕ
low_mask width = sub64 (shl64 1 width) 1

unfoldable pub execute_ubfm : Instruction → ℕ → ℕ
execute_ubfm i rn_value =
    let immr = i.imm in
    let imms = i.imm2 in
    if imms == 63 && i.is_64bit
    then shr rn_value immr
    else if imms == 31 && not i.is_64bit
    then shr (bit_and rn_value 0xFFFFFFFF) immr
    else if add64 imms 1 == immr
    then (if i.is_64bit
        then shl64 rn_value (sub64 64 immr)
        else bit_and (shl64 rn_value (sub64 32 immr)) 0xFFFFFFFF)
    else if immr == 0
    then bit_and rn_value (low_mask (add64 imms 1))
    else bit_and (shr rn_value immr) (low_mask (add64 (sub64 imms immr) 1))

unfoldable pub execute_sbfm : Instruction → ℕ → ℕ
execute_sbfm i rn_value =
    let immr = i.imm in
    let imms = i.imm2 in
    let width = add64 (sub64 imms immr) 1 in
    let mask = low_mask width in
    let extracted = bit_and (shr rn_value immr) mask in
    if imms == 63 && i.is_64bit
    then asr64 rn_value immr
    else if imms == 31 && not i.is_64bit
    then asr32 (u32 rn_value) immr
    else if immr == 0 && imms == 7
    then sext8_64 (u8 rn_value)
    else if immr == 0 && imms == 15
    then sext16_64 (u16 rn_value)
    else if immr == 0 && imms == 31
    then sext32_64 (u32 rn_value)
    else if shr extracted (sub64 width 1) == 0
    then extracted
    else bit_or extracted (not64 mask)
