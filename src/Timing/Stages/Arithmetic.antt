-- ===== src/Timing/Stages/Arithmetic.antt =====
-- timing/pipeline/stages.go: the operands, the results and the flags of the execute stage, and the
-- conditions on them.
use m1sim.Base.{
  ℕ, Bool, true, false, not, ◌+◌, ◌-◌, ◌%◌, ◌&&◌, ◌||◌, ◌==◌, same, leb, ltb, if◌then◌else◌, u32,
  add64, sub64, add32, sub32, shr, shl64, shl32, asr64, asr32, not64, not32, bit_and, bit_or,
  bit_xor,
}
use m1sim.Insts.{Format, Instruction}
use m1sim.Emu.RegFile.{Pstate, RegFile}

-- `n == v` and so on, on given flags: the cases of `EvaluateConditionWithFlags`.
unfoldable pub evaluate_condition_with_flags : ℕ → Pstate → Bool
evaluate_condition_with_flags cond p =
    if cond == 0b0000
    then p.z
    else if cond == 0b0001
    then not p.z
    else if cond == 0b0010
    then p.c
    else if cond == 0b0011
    then not p.c
    else if cond == 0b0100
    then p.n
    else if cond == 0b0101
    then not p.n
    else if cond == 0b0110
    then p.v
    else if cond == 0b0111
    then not p.v
    else if cond == 0b1000
    then p.c && not p.z
    else if cond == 0b1001
    then not p.c || p.z
    else if cond == 0b1010
    then same p.n p.v
    else if cond == 0b1011
    then not (same p.n p.v)
    else if cond == 0b1100
    then not p.z && same p.n p.v
    else if cond == 0b1101
    then p.z || not (same p.n p.v)
    else if cond == 0b1110 || cond == 0b1111
    then true
    else false

-- The package's own `checkCondition` has the same cases on PSTATE.
unfoldable pub check_condition_stage : ℕ → RegFile → Bool
unfolding evaluate_condition_with_flags
check_condition_stage cond r = evaluate_condition_with_flags cond r.pstate

-- `rmValue` after the shift of the register forms.
unfoldable pub shift_rm64 : ℕ → ℕ → ℕ → ℕ
shift_rm64 rm shift_type amount =
    if shift_type == 0b00
    then shl64 rm amount
    else if shift_type == 0b01
    then shr rm amount
    else if shift_type == 0b10
    then asr64 rm amount
    else if shift_type == 0b11
    then bit_or (shr rm amount) (shl64 rm ((64 + 256 - amount) % 256))
    else rm

unfoldable pub shift_rm32 : ℕ → ℕ → ℕ → ℕ
shift_rm32 rm shift_type amount =
    if shift_type == 0b00
    then shl32 rm amount
    else if shift_type == 0b01
    then shr rm amount
    else if shift_type == 0b10
    then asr32 rm amount
    else if shift_type == 0b11
    then bit_or (shr rm amount) (shl32 rm ((32 + 256 - amount) % 256))
    else rm

abbrev pub is_dp_reg : Format → Bool
is_dp_reg f = elim f [ Format.dp_reg ↦ true | _ ↦ false ]

abbrev pub is_dp_imm : Format → Bool
is_dp_imm f = elim f [ Format.dp_imm ↦ true | _ ↦ false ]

unfoldable pub shift_rm : Instruction → ℕ → ℕ
unfolding shift_rm64 shift_rm32
shift_rm i rm =
    if is_dp_reg i.format && ltb 0 i.shift_amount
    then (if i.is_64bit
        then shift_rm64 rm i.shift_type i.shift_amount
        else shift_rm32 (u32 rm) i.shift_type i.shift_amount)
    else rm

-- The second operand of ADD and SUB.
abbrev pub second_operand : Instruction → ℕ → ℕ
second_operand i rm =
    if is_dp_imm i.format then (if ltb 0 i.shift then shl64 i.imm i.shift else i.imm) else rm

unfoldable pub execute_add : Instruction → ℕ → ℕ → ℕ
execute_add i rn rm =
    let op2 = second_operand i rm in if i.is_64bit then add64 rn op2 else add32 (u32 rn) (u32 op2)

unfoldable pub execute_sub : Instruction → ℕ → ℕ → ℕ
execute_sub i rn rm =
    let op2 = second_operand i rm in if i.is_64bit then sub64 rn op2 else sub32 (u32 rn) (u32 op2)

unfoldable pub execute_and : Instruction → ℕ → ℕ → ℕ
execute_and i rn rm = if i.is_64bit then bit_and rn rm else bit_and (u32 rn) (u32 rm)

unfoldable pub execute_orr : Instruction → ℕ → ℕ → ℕ
execute_orr i rn rm = if i.is_64bit then bit_or rn rm else bit_or (u32 rn) (u32 rm)

unfoldable pub execute_eor : Instruction → ℕ → ℕ → ℕ
execute_eor i rn rm = if i.is_64bit then bit_xor rn rm else bit_xor (u32 rn) (u32 rm)

unfoldable pub execute_bic : Instruction → ℕ → ℕ → ℕ
execute_bic i rn rm =
    if i.is_64bit then bit_and rn (not64 rm) else bit_and (u32 rn) (not32 (u32 rm))

unfoldable pub execute_orn : Instruction → ℕ → ℕ → ℕ
execute_orn i rn rm = if i.is_64bit then bit_or rn (not64 rm) else bit_or (u32 rn) (not32 (u32 rm))

unfoldable pub execute_eon : Instruction → ℕ → ℕ → ℕ
execute_eon i rn rm =
    if i.is_64bit then bit_xor rn (not64 rm) else bit_xor (u32 rn) (not32 (u32 rm))

-- The flags at a width, given the operands and the result at that width.
abbrev pub add_flags : ℕ → ℕ → ℕ → ℕ → Pstate
add_flags top o1 o2 result = record {
  n = shr result top == 1;
  z = result == 0;
  c = ltb result o1;
  v = shr o1 top == shr o2 top && not (shr o1 top == shr result top);
}

abbrev pub sub_flags : ℕ → ℕ → ℕ → ℕ → Pstate
sub_flags top o1 o2 result = record {
  n = shr result top == 1;
  z = result == 0;
  c = leb o2 o1;
  v = not (shr o1 top == shr o2 top) && shr o2 top == shr result top;
}

unfoldable pub compute_add_flags : Instruction → ℕ → ℕ → ℕ → Pstate
compute_add_flags i op1 op2 result =
    if i.is_64bit
    then add_flags 63 op1 op2 result
    else add_flags 31 (u32 op1) (u32 op2) (u32 result)

-- The method `computeSubFlags`, given the result.
unfoldable pub compute_sub_flags_of : Instruction → ℕ → ℕ → ℕ → Pstate
compute_sub_flags_of i op1 op2 result =
    if i.is_64bit
    then sub_flags 63 op1 op2 result
    else sub_flags 31 (u32 op1) (u32 op2) (u32 result)

-- The function `ComputeSubFlags`.
unfoldable pub compute_sub_flags : ℕ → ℕ → Bool → Pstate
compute_sub_flags op1 op2 is_64bit =
    if is_64bit
    then sub_flags 63 op1 op2 (sub64 op1 op2)
    else sub_flags 31 (u32 op1) (u32 op2) (sub32 (u32 op1) (u32 op2))
