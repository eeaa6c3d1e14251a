-- ===== src/Emu/Alu.antt =====
-- emu/alu.go: addition, subtraction and logic on the register file, with the NZCV flags.
pub mod Flags
use m1sim.Base
use m1sim.Base.{
  ℕ, Bool, false, not, ◌&&◌, ◌==◌, ltb, leb, same, if◌then◌else◌, shr, shl64, u32, bit_and, bit_or,
  bit_xor,
}
use m1sim.Emu.RegFile.{RegFile, read_reg, read_reg_or_sp, write_reg, write_reg_or_sp}

unfoldable pub set_add_flags64 : ℕ → ℕ → ℕ → RegFile → RegFile
set_add_flags64 op1 op2 result r =
    let op1_sign = shr op1 63 in
    let op2_sign = shr op2 63 in
    let result_sign = shr result 63 in
    record r {
      pstate = record {
        n = shr result 63 == 1;
        z = result == 0;
        c = ltb result op1;
        v = op1_sign == op2_sign && not (op1_sign == result_sign);
      };
    }

unfoldable pub set_sub_flags64 : ℕ → ℕ → ℕ → RegFile → RegFile
set_sub_flags64 op1 op2 result r =
    let op1_sign = shr op1 63 in
    let op2_sign = shr op2 63 in
    let result_sign = shr result 63 in
    record r {
      pstate = record {
        n = shr result 63 == 1;
        z = result == 0;
        c = leb op2 op1;
        v = not (op1_sign == op2_sign) && op2_sign == result_sign;
      };
    }

unfoldable pub set_logic_flags64 : ℕ → RegFile → RegFile
set_logic_flags64 result r = record r {
  pstate = record { n = shr result 63 == 1; z = result == 0; c = false; v = false };
}

unfoldable pub set_add_flags32 : ℕ → ℕ → ℕ → RegFile → RegFile
set_add_flags32 op1 op2 result r =
    let op1_sign = shr op1 31 in
    let op2_sign = shr op2 31 in
    let result_sign = shr result 31 in
    record r {
      pstate = record {
        n = shr result 31 == 1;
        z = result == 0;
        c = ltb result op1;
        v = op1_sign == op2_sign && not (op1_sign == result_sign);
      };
    }

unfoldable pub set_sub_flags32 : ℕ → ℕ → ℕ → RegFile → RegFile
set_sub_flags32 op1 op2 result r =
    let op1_sign = shr op1 31 in
    let op2_sign = shr op2 31 in
    let result_sign = shr result 31 in
    record r {
      pstate = record {
        n = shr result 31 == 1;
        z = result == 0;
        c = leb op2 op1;
        v = not (op1_sign == op2_sign) && op2_sign == result_sign;
      };
    }

unfoldable pub set_logic_flags32 : ℕ → RegFile → RegFile
set_logic_flags32 result r = record r {
  pstate = record { n = shr result 31 == 1; z = result == 0; c = false; v = false };
}

unfoldable pub add64 : ℕ → ℕ → ℕ → Bool → RegFile → RegFile
unfolding read_reg write_reg set_add_flags64
add64 rd rn rm set_flags r =
    let op1 = read_reg rn r in
    let op2 = read_reg rm r in
    let result = Base.add64 op1 op2 in
    let written = write_reg rd result r in
    if set_flags then set_add_flags64 op1 op2 result written else written

unfoldable pub add64_imm : ℕ → ℕ → ℕ → Bool → RegFile → RegFile
unfolding read_reg_or_sp write_reg write_reg_or_sp set_add_flags64
add64_imm rd rn imm set_flags r =
    let op1 = read_reg_or_sp rn r in
    let result = Base.add64 op1 imm in
    if set_flags
    then set_add_flags64 op1 imm result (write_reg rd result r)
    else write_reg_or_sp rd result r

unfoldable pub add32 : ℕ → ℕ → ℕ → Bool → RegFile → RegFile
unfolding read_reg write_reg set_add_flags32
add32 rd rn rm set_flags r =
    let op1 = u32 (read_reg rn r) in
    let op2 = u32 (read_reg rm r) in
    let result = Base.add32 op1 op2 in
    let written = write_reg rd result r in
    if set_flags then set_add_flags32 op1 op2 result written else written

unfoldable pub add32_imm : ℕ → ℕ → ℕ → Bool → RegFile → RegFile
unfolding read_reg_or_sp write_reg write_reg_or_sp set_add_flags32
add32_imm rd rn imm set_flags r =
    let op1 = u32 (read_reg_or_sp rn r) in
    let result = Base.add32 op1 imm in
    if set_flags
    then set_add_flags32 op1 imm result (write_reg rd result r)
    else write_reg_or_sp rd result r

unfoldable pub sub64 : ℕ → ℕ → ℕ → Bool → RegFile → RegFile
unfolding read_reg write_reg set_sub_flags64
sub64 rd rn rm set_flags r =
    let op1 = read_reg rn r in
    let op2 = read_reg rm r in
    let result = Base.sub64 op1 op2 in
    let written = write_reg rd result r in
    if set_flags then set_sub_flags64 op1 op2 result written else written

unfoldable pub sub64_imm : ℕ → ℕ → ℕ → Bool → RegFile → RegFile
unfolding read_reg_or_sp write_reg write_reg_or_sp set_sub_flags64
sub64_imm rd rn imm set_flags r =
    let op1 = read_reg_or_sp rn r in
    let result = Base.sub64 op1 imm in
    if set_flags
    then set_sub_flags64 op1 imm result (write_reg rd result r)
    else write_reg_or_sp rd result r

unfoldable pub sub32 : ℕ → ℕ → ℕ → Bool → RegFile → RegFile
unfolding read_reg write_reg set_sub_flags32
sub32 rd rn rm set_flags r =
    let op1 = u32 (read_reg rn r) in
    let op2 = u32 (read_reg rm r) in
    let result = Base.sub32 op1 op2 in
    let written = write_reg rd result r in
    if set_flags then set_sub_flags32 op1 op2 result written else written

unfoldable pub sub32_imm : ℕ → ℕ → ℕ → Bool → RegFile → RegFile
unfolding read_reg_or_sp write_reg write_reg_or_sp set_sub_flags32
sub32_imm rd rn imm set_flags r =
    let op1 = u32 (read_reg_or_sp rn r) in
    let result = Base.sub32 op1 imm in
    if set_flags
    then set_sub_flags32 op1 imm result (write_reg rd result r)
    else write_reg_or_sp rd result r

unfoldable pub add64_imm_shifted : ℕ → ℕ → ℕ → ℕ → Bool → RegFile → RegFile
unfolding add64_imm
add64_imm_shifted rd rn imm shift set_flags r = add64_imm rd rn (shl64 imm shift) set_flags r

unfoldable pub and64 : ℕ → ℕ → ℕ → Bool → RegFile → RegFile
unfolding read_reg write_reg set_logic_flags64
and64 rd rn rm set_flags r =
    let result = bit_and (read_reg rn r) (read_reg rm r) in
    let written = write_reg rd result r in
    if set_flags then set_logic_flags64 result written else written

unfoldable pub and64_imm : ℕ → ℕ → ℕ → Bool → RegFile → RegFile
unfolding read_reg write_reg set_logic_flags64
and64_imm rd rn imm set_flags r =
    let result = bit_and (read_reg rn r) imm in
    let written = write_reg rd result r in
    if set_flags then set_logic_flags64 result written else written

unfoldable pub and32 : ℕ → ℕ → ℕ → Bool → RegFile → RegFile
unfolding read_reg write_reg set_logic_flags32
and32 rd rn rm set_flags r =
    let result = bit_and (u32 (read_reg rn r)) (u32 (read_reg rm r)) in
    let written = write_reg rd result r in
    if set_flags then set_logic_flags32 result written else written

unfoldable pub and32_imm : ℕ → ℕ → ℕ → Bool → RegFile → RegFile
unfolding read_reg write_reg set_logic_flags32
and32_imm rd rn imm set_flags r =
    let result = bit_and (u32 (read_reg rn r)) (u32 imm) in
    let written = write_reg rd result r in
    if set_flags then set_logic_flags32 result written else written

unfoldable pub orr64 : ℕ → ℕ → ℕ → RegFile → RegFile
unfolding read_reg write_reg
orr64 rd rn rm r = write_reg rd (bit_or (read_reg rn r) (read_reg rm r)) r

unfoldable pub orr64_imm : ℕ → ℕ → ℕ → RegFile → RegFile
unfolding read_reg write_reg
orr64_imm rd rn imm r = write_reg rd (bit_or (read_reg rn r) imm) r

unfoldable pub orr32 : ℕ → ℕ → ℕ → RegFile → RegFile
unfolding read_reg write_reg
orr32 rd rn rm r = write_reg rd (bit_or (u32 (read_reg rn r)) (u32 (read_reg rm r))) r

unfoldable pub orr32_imm : ℕ → ℕ → ℕ → RegFile → RegFile
unfolding read_reg write_reg
orr32_imm rd rn imm r = write_reg rd (bit_or (u32 (read_reg rn r)) (u32 imm)) r

unfoldable pub eor64 : ℕ → ℕ → ℕ → RegFile → RegFile
unfolding read_reg write_reg
eor64 rd rn rm r = write_reg rd (bit_xor (read_reg rn r) (read_reg rm r)) r

unfoldable pub eor64_imm : ℕ → ℕ → ℕ → RegFile → RegFile
unfolding read_reg write_reg
eor64_imm rd rn imm r = write_reg rd (bit_xor (read_reg rn r) imm) r

unfoldable pub eor32 : ℕ → ℕ → ℕ → RegFile → RegFile
unfolding read_reg write_reg
eor32 rd rn rm r = write_reg rd (bit_xor (u32 (read_reg rn r)) (u32 (read_reg rm r))) r

unfoldable pub eor32_imm : ℕ → ℕ → ℕ → RegFile → RegFile
unfolding read_reg write_reg
eor32_imm rd rn imm r = write_reg rd (bit_xor (u32 (read_reg rn r)) (u32 imm)) r
