-- ===== src/Insts/Bounds.antt =====
-- The ranges of the fields of a decoded instruction, whatever the word is.
use m1sim.Base.{
  ℕ, ◌==◌, zero, suc, Bool, true, false, ◌+◌, ◌*◌, ◌<◌, ◌≤◌, ◌^◌, ◌≡◌, ◌⊎◌, arith, field,
  if◌then◌else◌,
}
use m1sim.Base.{shl64, bit_or}
use m1sim.Base.Bits.{bit_and-lt, bit_or-lt}
use m1sim.Insts.{Format, Instruction, blank}
use m1sim.Insts.Classify.{
  is_data_processing_imm, is_data_processing_reg, is_branch_imm, is_branch_cond, is_branch_reg,
  is_load_store_imm, is_nop, is_exception, is_simd_load_store, is_simd_three_same,
  is_pc_rel_addressing, is_load_store_literal, is_move_wide, is_load_store_pair,
  is_load_store_reg_offset, is_load_store_reg_indexed, is_cond_cmp, is_conditional_select,
  is_data_proc_2src, is_data_proc_3src, is_logical_imm, is_extract, is_bitfield, is_test_branch,
  is_compare_branch, is_simd_copy, is_system_reg,
}
use m1sim.Insts.Branches.{
  decode_branch_imm, decode_branch_cond, decode_branch_reg, decode_test_branch,
  decode_compare_branch, decode_pc_rel_addressing, decode_nop, decode_exception, decode_system_reg,
}
use m1sim.Insts.Memory.{
  decode_load_store_imm, decode_load_store_literal, decode_load_store_pair,
  decode_load_store_reg_offset, decode_load_store_reg_indexed,
}
use m1sim.Insts.Data.{
  decode_data_processing_imm, decode_data_processing_reg, decode_move_wide, decode_cond_cmp,
  decode_conditional_select, decode_data_proc_2src, decode_data_proc_3src, decode_logical_imm,
  decode_extract, decode_bitfield,
}
use m1sim.Insts.Simd.{decode_simd_load_store, decode_simd_three_same, decode_simd_copy}
use m1sim.Insts.Bitmask.{replicate_element, decode_bitmask_immediate}
use m1sim.Insts.Decoder.{decode}
use m1sim.Insts.Encoding.Signs.{sign_fill-lt}

-- Every register number is one of the 32; Rm may instead be the marker 0xFF, and then the
-- instruction is a conditional compare.
pub record InRange (i : Instruction) : Type 0 where
  pub rd_register : i.rd < 32
  pub rn_register : i.rn < 32
  pub rm_register : (i.rm < 32) ⊎ ((i.rm ≡ 0xFF) × (i.format ≡ Format.cond_cmp))
  pub rt2_register : i.rt2 < 32
  pub cond_nibble : i.cond < 16
  pub imm_word : i.imm < 2 ^ 64
  pub imm2_six_bits : i.imm2 < 64
  pub shift_capped : i.shift ≤ 48
  pub shift_type_three_bits : i.shift_type < 8
  pub shift_amount_six_bits : i.shift_amount < 64
  pub branch_offset_word : i.branch_offset < 2 ^ 64
  pub signed_imm_word : i.signed_imm < 2 ^ 64

replicate_element-lt :
    (fuel esize welem i result : ℕ)
    → result < 2 ^ 64
    → replicate_element fuel esize welem i result < 2 ^ 64
unfolding replicate_element
replicate_element-lt zero esize welem i result h = h
replicate_element-lt (suc fuel) esize welem i result h = ground (
  arith,
  replicate_element-lt fuel esize welem (i + esize) (bit_or result (shl64 welem i))
      (bit_or-lt 64 result (shl64 welem i) h (omega arith)),
)

pub decode_bitmask_immediate-lt :
    (n immr imms : ℕ) (w : Bool) → decode_bitmask_immediate n immr imms w < 2 ^ 64
unfolding decode_bitmask_immediate
decode_bitmask_immediate-lt n immr imms true = replicate_element-lt 64 _ _ 0 0 (omega arith)
decode_bitmask_immediate-lt n immr imms false =
    bit_and-lt 64 _ 0xFFFFFFFF (replicate_element-lt 64 _ _ 0 0 (omega arith))

decode_branch_imm-InRange : (w : ℕ) → InRange (decode_branch_imm w blank)
unfolding decode_branch_imm
decode_branch_imm-InRange w = ground arith

decode_branch_cond-InRange : (w : ℕ) → InRange (decode_branch_cond w blank)
unfolding decode_branch_cond
decode_branch_cond-InRange w = ground arith

decode_branch_reg-InRange : (w : ℕ) → InRange (decode_branch_reg w blank)
unfolding decode_branch_reg
decode_branch_reg-InRange w = ground arith

decode_test_branch-InRange : (w : ℕ) → InRange (decode_test_branch w blank)
unfolding decode_test_branch
decode_test_branch-InRange w = ground (arith, bit_or-lt 6 (field 31 1 w * 2 ^ 5) (field 19 5 w))

decode_compare_branch-InRange : (w : ℕ) → InRange (decode_compare_branch w blank)
unfolding decode_compare_branch
decode_compare_branch-InRange w = ground arith

decode_pc_rel_addressing-InRange : (w : ℕ) → InRange (decode_pc_rel_addressing w blank)
unfolding decode_pc_rel_addressing
decode_pc_rel_addressing-InRange w = ground (
  arith,
  bit_or-lt 21 (field 5 19 w * 2 ^ 2) (field 29 2 w),
  sign_fill-lt 21 (bit_or (field 5 19 w * 2 ^ 2) (field 29 2 w)),
)

decode_nop-InRange : (w : ℕ) → InRange (decode_nop w blank)
unfolding decode_nop
decode_nop-InRange w = ground arith

decode_exception-InRange : (w : ℕ) → InRange (decode_exception w blank)
unfolding decode_exception
decode_exception-InRange w = ground arith

decode_system_reg-InRange : (w : ℕ) → InRange (decode_system_reg w blank)
unfolding decode_system_reg
decode_system_reg-InRange w = ground arith

decode_load_store_imm-InRange : (w : ℕ) → InRange (decode_load_store_imm w blank)
unfolding decode_load_store_imm
decode_load_store_imm-InRange w = ground arith

decode_load_store_literal-InRange : (w : ℕ) → InRange (decode_load_store_literal w blank)
unfolding decode_load_store_literal
decode_load_store_literal-InRange w = ground arith

decode_load_store_pair-InRange : (w : ℕ) → InRange (decode_load_store_pair w blank)
unfolding decode_load_store_pair
decode_load_store_pair-InRange w = ground arith

decode_load_store_reg_offset-InRange : (w : ℕ) → InRange (decode_load_store_reg_offset w blank)
unfolding decode_load_store_reg_offset
decode_load_store_reg_offset-InRange w = ground arith

decode_load_store_reg_indexed-InRange : (w : ℕ) → InRange (decode_load_store_reg_indexed w blank)
unfolding decode_load_store_reg_indexed
decode_load_store_reg_indexed-InRange w = ground (arith, sign_fill-lt 9 (field 12 9 w))

decode_data_processing_imm-InRange : (w : ℕ) → InRange (decode_data_processing_imm w blank)
unfolding decode_data_processing_imm
decode_data_processing_imm-InRange w = ground arith

decode_data_processing_reg-InRange : (w : ℕ) → InRange (decode_data_processing_reg w blank)
unfolding decode_data_processing_reg
decode_data_processing_reg-InRange w = ground arith

decode_move_wide-InRange : (w : ℕ) → InRange (decode_move_wide w blank)
unfolding decode_move_wide
decode_move_wide-InRange w = ground arith

decode_cond_cmp-InRange : (w : ℕ) → InRange (decode_cond_cmp w blank)
unfolding decode_cond_cmp
decode_cond_cmp-InRange w = ground arith

decode_conditional_select-InRange : (w : ℕ) → InRange (decode_conditional_select w blank)
unfolding decode_conditional_select
decode_conditional_select-InRange w = ground arith

decode_data_proc_2src-InRange : (w : ℕ) → InRange (decode_data_proc_2src w blank)
unfolding decode_data_proc_2src
decode_data_proc_2src-InRange w = ground arith

decode_data_proc_3src-InRange : (w : ℕ) → InRange (decode_data_proc_3src w blank)
unfolding decode_data_proc_3src
decode_data_proc_3src-InRange w = ground arith

decode_logical_imm-InRange : (w : ℕ) → InRange (decode_logical_imm w blank)
unfolding decode_logical_imm
decode_logical_imm-InRange w = ground (
  arith,
  decode_bitmask_immediate-lt (field 22 1 w) (field 16 6 w) (field 10 6 w) (field 31 1 w == 1),
)

decode_extract-InRange : (w : ℕ) → InRange (decode_extract w blank)
unfolding decode_extract
decode_extract-InRange w = ground arith

decode_bitfield-InRange : (w : ℕ) → InRange (decode_bitfield w blank)
unfolding decode_bitfield
decode_bitfield-InRange w = ground arith

decode_simd_load_store-InRange : (w : ℕ) → InRange (decode_simd_load_store w blank)
unfolding decode_simd_load_store
decode_simd_load_store-InRange w = ground arith

decode_simd_three_same-InRange : (w : ℕ) → InRange (decode_simd_three_same w blank)
unfolding decode_simd_three_same
decode_simd_three_same-InRange w = ground arith

decode_simd_copy-InRange : (w : ℕ) → InRange (decode_simd_copy w blank)
unfolding decode_simd_copy
decode_simd_copy-InRange w = ground arith

-- A choice between two instructions in range is in range.
either : (b : Bool) {i j : Instruction} → InRange i → InRange j → InRange (if b then i else j)
either true p q = p
either false p q = q

-- Every decoded word names registers below 32 (Rm is below 32, or it is the mark 0xFF of a
-- conditional compare with an immediate), and each field of the instruction fits: the condition 4
-- bits, the shift at most 48, the second immediate and the shift amount 6 bits, the shift type 3
-- bits, the immediate and the two offsets 64 bits.
pub decode-InRange : (w : ℕ) → InRange (decode w)
unfolding decode
decode-InRange w = either (is_simd_load_store w) (decode_simd_load_store-InRange w) (
    either (is_simd_three_same w) (decode_simd_three_same-InRange w) (
      either (is_simd_copy w) (decode_simd_copy-InRange w) (
        either (is_load_store_pair w) (decode_load_store_pair-InRange w) (
          either (is_load_store_literal w) (decode_load_store_literal-InRange w) (
            either (is_load_store_reg_offset w) (decode_load_store_reg_offset-InRange w) (
              either (is_load_store_reg_indexed w) (decode_load_store_reg_indexed-InRange w) (
                either (is_load_store_imm w) (decode_load_store_imm-InRange w) (
                  either (is_pc_rel_addressing w) (decode_pc_rel_addressing-InRange w) (
                    either (is_move_wide w) (decode_move_wide-InRange w) (
                      either (is_cond_cmp w) (decode_cond_cmp-InRange w) (
                        either (is_conditional_select w) (decode_conditional_select-InRange w) (
                          either (is_data_proc_2src w) (decode_data_proc_2src-InRange w) (
                            either (is_data_proc_3src w) (decode_data_proc_3src-InRange w) (
                              either (is_logical_imm w) (decode_logical_imm-InRange w) (
                                either (is_extract w) (decode_extract-InRange w) (
                                  either (is_bitfield w) (decode_bitfield-InRange w) (
                                    either (is_data_processing_imm w)
                                      (decode_data_processing_imm-InRange w)
                                      (either (is_data_processing_reg w)
                                        (decode_data_processing_reg-InRange w)
                                        (either (is_test_branch w) (decode_test_branch-InRange w) (
                                          either (is_compare_branch w)
                                            (decode_compare_branch-InRange w)
                                            (either (is_branch_imm w) (decode_branch_imm-InRange w)
                                              (either (is_branch_cond w)
                                                (decode_branch_cond-InRange w)
                                                (either (is_branch_reg w)
                                                  (decode_branch_reg-InRange w)
                                                  (either (is_nop w) (decode_nop-InRange w) (
                                                    either (is_exception w)
                                                      (decode_exception-InRange w)
                                                      (either (is_system_reg w)
                                                        (decode_system_reg-InRange w)
                                                        (ground arith)))))))))))))))))))))))))))
