-- ===== src/Insts/Classes.antt =====
-- Which words reach which decoder: each class rules the earlier tests of `decodeInto` out.
pub mod Branches
use m1sim.Base.{ℕ, ◌≡◌, true, false, arith, field}
use m1sim.Insts.{blank}
use m1sim.Insts.Classify.{
  is_simd_load_store, is_simd_three_same, is_simd_copy, is_load_store_pair, is_load_store_literal,
  is_load_store_reg_offset, is_load_store_reg_indexed, is_load_store_imm, is_pc_rel_addressing,
  is_move_wide, is_cond_cmp, is_conditional_select, is_data_proc_2src, is_data_proc_3src,
  is_logical_imm, is_extract, is_bitfield, is_data_processing_imm, is_data_processing_reg,
  is_test_branch, is_compare_branch, is_branch_imm, is_branch_cond,
}
use m1sim.Insts.Data.{
  decode_data_processing_imm, decode_move_wide, decode_logical_imm, decode_bitfield,
}
use m1sim.Insts.Branches.{
  decode_branch_imm, decode_branch_cond, decode_compare_branch, decode_test_branch,
  decode_pc_rel_addressing,
}
use m1sim.Insts.Decoder.{decode}

-- Bits [28:26] = 100, data processing with an immediate: no load, store or SIMD test passes.
record Immediate (w : ℕ) : Type 0 where
  simd_load_store : is_simd_load_store w ≡ false
  simd_three_same : is_simd_three_same w ≡ false
  simd_copy : is_simd_copy w ≡ false
  load_store_pair : is_load_store_pair w ≡ false
  load_store_literal : is_load_store_literal w ≡ false
  load_store_reg_offset : is_load_store_reg_offset w ≡ false
  load_store_reg_indexed : is_load_store_reg_indexed w ≡ false
  load_store_imm : is_load_store_imm w ≡ false

immediate : (w : ℕ) → field 26 3 w ≡ 0b100 → Immediate w
unfolding is_simd_load_store is_simd_three_same is_simd_copy is_load_store_pair
    is_load_store_literal is_load_store_reg_offset is_load_store_reg_indexed is_load_store_imm
immediate w h = record {
  simd_load_store = ground arith;
  simd_three_same = ground arith;
  simd_copy = ground arith;
  load_store_pair = ground arith;
  load_store_literal = ground arith;
  load_store_reg_offset = ground arith;
  load_store_reg_indexed = ground arith;
  load_store_imm = ground arith;
}

pub decode_pc_rel_addressing_class :
    (w : ℕ) → is_pc_rel_addressing w ≡ true → decode w ≡ decode_pc_rel_addressing w blank
unfolding decode
decode_pc_rel_addressing_class w h =
    let s = immediate w (unfold is_pc_rel_addressing in ground arith) in
    simp (
      s.simd_load_store, s.simd_three_same, s.simd_copy, s.load_store_pair, s.load_store_literal,
      s.load_store_reg_offset, s.load_store_reg_indexed, s.load_store_imm, h,
    )

pub decode_move_wide_class : (w : ℕ) → is_move_wide w ≡ true → decode w ≡ decode_move_wide w blank
unfolding decode
decode_move_wide_class w h =
    let s = immediate w (unfold is_move_wide in ground arith) in
    let pc_rel_addressing : is_pc_rel_addressing w ≡ false =
      unfold is_pc_rel_addressing is_move_wide in ground arith in
    simp (
      s.simd_load_store, s.simd_three_same, s.simd_copy, s.load_store_pair, s.load_store_literal,
      s.load_store_reg_offset, s.load_store_reg_indexed, s.load_store_imm, pc_rel_addressing, h,
    )

pub decode_logical_imm_class :
    (w : ℕ) → is_logical_imm w ≡ true → decode w ≡ decode_logical_imm w blank
unfolding decode
decode_logical_imm_class w h =
    let s = immediate w (unfold is_logical_imm in ground arith) in
    let pc_rel_addressing : is_pc_rel_addressing w ≡ false =
      unfold is_pc_rel_addressing is_logical_imm in ground arith in
    let move_wide : is_move_wide w ≡ false = unfold is_move_wide is_logical_imm in ground arith in
    let cond_cmp : is_cond_cmp w ≡ false = unfold is_cond_cmp is_logical_imm in ground arith in
    let conditional_select : is_conditional_select w ≡ false =
      unfold is_conditional_select is_logical_imm in ground arith in
    let data_proc_2src : is_data_proc_2src w ≡ false =
      unfold is_data_proc_2src is_logical_imm in ground arith in
    let data_proc_3src : is_data_proc_3src w ≡ false =
      unfold is_data_proc_3src is_logical_imm in ground arith in
    simp (
      s.simd_load_store, s.simd_three_same, s.simd_copy, s.load_store_pair, s.load_store_literal,
      s.load_store_reg_offset, s.load_store_reg_indexed, s.load_store_imm, pc_rel_addressing,
      move_wide, cond_cmp, conditional_select, data_proc_2src, data_proc_3src, h,
    )

pub decode_bitfield_class : (w : ℕ) → is_bitfield w ≡ true → decode w ≡ decode_bitfield w blank
unfolding decode
decode_bitfield_class w h =
    let s = immediate w (unfold is_bitfield in ground arith) in
    let pc_rel_addressing : is_pc_rel_addressing w ≡ false =
      unfold is_pc_rel_addressing is_bitfield in ground arith in
    let move_wide : is_move_wide w ≡ false = unfold is_move_wide is_bitfield in ground arith in
    let cond_cmp : is_cond_cmp w ≡ false = unfold is_cond_cmp is_bitfield in ground arith in
    let conditional_select : is_conditional_select w ≡ false =
      unfold is_conditional_select is_bitfield in ground arith in
    let data_proc_2src : is_data_proc_2src w ≡ false =
      unfold is_data_proc_2src is_bitfield in ground arith in
    let data_proc_3src : is_data_proc_3src w ≡ false =
      unfold is_data_proc_3src is_bitfield in ground arith in
    let logical_imm : is_logical_imm w ≡ false =
      unfold is_logical_imm is_bitfield in ground arith in
    let extract : is_extract w ≡ false = unfold is_extract is_bitfield in ground arith in
    simp (
      s.simd_load_store, s.simd_three_same, s.simd_copy, s.load_store_pair, s.load_store_literal,
      s.load_store_reg_offset, s.load_store_reg_indexed, s.load_store_imm, pc_rel_addressing,
      move_wide, cond_cmp, conditional_select, data_proc_2src, data_proc_3src, logical_imm, extract,
      h,
    )

pub decode_data_processing_imm_class :
    (w : ℕ) → is_data_processing_imm w ≡ true → decode w ≡ decode_data_processing_imm w blank
unfolding decode
decode_data_processing_imm_class w h =
    let s = immediate w (unfold is_data_processing_imm in ground arith) in
    let pc_rel_addressing : is_pc_rel_addressing w ≡ false =
      unfold is_pc_rel_addressing is_data_processing_imm in ground arith in
    let move_wide : is_move_wide w ≡ false =
      unfold is_move_wide is_data_processing_imm in ground arith in
    let cond_cmp : is_cond_cmp w ≡ false =
      unfold is_cond_cmp is_data_processing_imm in ground arith in
    let conditional_select : is_conditional_select w ≡ false =
      unfold is_conditional_select is_data_processing_imm in ground arith in
    let data_proc_2src : is_data_proc_2src w ≡ false =
      unfold is_data_proc_2src is_data_processing_imm in ground arith in
    let data_proc_3src : is_data_proc_3src w ≡ false =
      unfold is_data_proc_3src is_data_processing_imm in ground arith in
    let logical_imm : is_logical_imm w ≡ false =
      unfold is_logical_imm is_data_processing_imm in ground arith in
    let extract : is_extract w ≡ false = unfold is_extract is_data_processing_imm in ground arith in
    let bitfield : is_bitfield w ≡ false =
      unfold is_bitfield is_data_processing_imm in ground arith in
    simp (
      s.simd_load_store, s.simd_three_same, s.simd_copy, s.load_store_pair, s.load_store_literal,
      s.load_store_reg_offset, s.load_store_reg_indexed, s.load_store_imm, pc_rel_addressing,
      move_wide, cond_cmp, conditional_select, data_proc_2src, data_proc_3src, logical_imm, extract,
      bitfield, h,
    )
