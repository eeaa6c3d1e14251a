-- ===== src/Insts/Decoder.antt =====
-- insts/decoder.go: `decodeInto`, the switch over the instruction classes, and its two callers.
use m1sim.Base.{ℕ, if◌then◌else◌}
use m1sim.Insts.{Instruction, blank}
use m1sim.Insts.Classify.{
  is_data_processing_imm, is_data_processing_reg, is_branch_imm, is_branch_cond, is_branch_reg,
  is_load_store_imm, is_nop, is_exception, is_simd_load_store, is_simd_three_same,
  is_pc_rel_addressing, is_load_store_literal, is_move_wide, is_load_store_pair,
  is_load_store_reg_offset, is_load_store_reg_indexed, is_cond_cmp, is_conditional_select,
  is_data_proc_2src, is_data_proc_3src, is_logical_imm, is_extract, is_bitfield, is_test_branch,
  is_compare_branch, is_simd_copy, is_system_reg,
}
use m1sim.Insts.Branches.{
  decode_branch_imm, decode_branch_cond, decode_branch_reg, decode_test_branch,
  decode_compare_branch, decode_pc_rel_addressing, decode_nop, decode_exception, decode_system_reg,
}
use m1sim.Insts.Memory.{
  decode_load_store_imm, decode_load_store_literal, decode_load_store_pair,
  decode_load_store_reg_offset, decode_load_store_reg_indexed,
}
use m1sim.Insts.Data.{
  decode_data_processing_imm, decode_data_processing_reg, decode_move_wide, decode_cond_cmp,
  decode_conditional_select, decode_data_proc_2src, decode_data_proc_3src, decode_logical_imm,
  decode_extract, decode_bitfield,
}
use m1sim.Insts.Simd.{decode_simd_load_store, decode_simd_three_same, decode_simd_copy}

unfoldable pub decode_into : ℕ → Instruction → Instruction
decode_into word inst =
    if is_simd_load_store word
    then decode_simd_load_store word inst
    else if is_simd_three_same word
    then decode_simd_three_same word inst
    else if is_simd_copy word
    then decode_simd_copy word inst
    else if is_load_store_pair word
    then decode_load_store_pair word inst
    else if is_load_store_literal word
    then decode_load_store_literal word inst
    else if is_load_store_reg_offset word
    then decode_load_store_reg_offset word inst
    else if is_load_store_reg_indexed word
    then decode_load_store_reg_indexed word inst
    else if is_load_store_imm word
    then decode_load_store_imm word inst
    else if is_pc_rel_addressing word
    then decode_pc_rel_addressing word inst
    else if is_move_wide word
    then decode_move_wide word inst
    else if is_cond_cmp word
    then decode_cond_cmp word inst
    else if is_conditional_select word
    then decode_conditional_select word inst
    else if is_data_proc_2src word
    then decode_data_proc_2src word inst
    else if is_data_proc_3src word
    then decode_data_proc_3src word inst
    else if is_logical_imm word
    then decode_logical_imm word inst
    else if is_extract word
    then decode_extract word inst
    else if is_bitfield word
    then decode_bitfield word inst
    else if is_data_processing_imm word
    then decode_data_processing_imm word inst
    else if is_data_processing_reg word
    then decode_data_processing_reg word inst
    else if is_test_branch word
    then decode_test_branch word inst
    else if is_compare_branch word
    then decode_compare_branch word inst
    else if is_branch_imm word
    then decode_branch_imm word inst
    else if is_branch_cond word
    then decode_branch_cond word inst
    else if is_branch_reg word
    then decode_branch_reg word inst
    else if is_nop word
    then decode_nop word inst
    else if is_exception word
    then decode_exception word inst
    else if is_system_reg word
    then decode_system_reg word inst
    else inst

unfoldable pub decode : ℕ → Instruction
unfolding decode_into
decode word = decode_into word blank
