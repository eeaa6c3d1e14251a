-- ===== src/Insts/Classes/Branches.antt =====
-- Which words reach the decoders of branches.
use m1sim.Base.{ℕ, ◌≡◌, true, false, arith, field}
use m1sim.Insts.{blank}
use m1sim.Insts.Classify.{
  is_simd_load_store, is_simd_three_same, is_simd_copy, is_load_store_pair, is_load_store_literal,
  is_load_store_reg_offset, is_load_store_reg_indexed, is_load_store_imm, is_pc_rel_addressing,
  is_move_wide, is_cond_cmp, is_conditional_select, is_data_proc_2src, is_data_proc_3src,
  is_logical_imm, is_extract, is_bitfield, is_data_processing_imm, is_data_processing_reg,
  is_test_branch, is_compare_branch, is_branch_imm, is_branch_cond,
}
use m1sim.Insts.Branches.{
  decode_branch_imm, decode_branch_cond, decode_compare_branch, decode_test_branch,
}
use m1sim.Insts.Decoder.{decode}

-- Bits [28:26] = 101, branches: no test before `isTestBranch` passes.
record Branching (w : ℕ) : Type 0 where
  simd_load_store : is_simd_load_store w ≡ false
  simd_three_same : is_simd_three_same w ≡ false
  simd_copy : is_simd_copy w ≡ false
  load_store_pair : is_load_store_pair w ≡ false
  load_store_literal : is_load_store_literal w ≡ false
  load_store_reg_offset : is_load_store_reg_offset w ≡ false
  load_store_reg_indexed : is_load_store_reg_indexed w ≡ false
  load_store_imm : is_load_store_imm w ≡ false
  pc_rel_addressing : is_pc_rel_addressing w ≡ false
  move_wide : is_move_wide w ≡ false
  cond_cmp : is_cond_cmp w ≡ false
  conditional_select : is_conditional_select w ≡ false
  data_proc_2src : is_data_proc_2src w ≡ false
  data_proc_3src : is_data_proc_3src w ≡ false
  logical_imm : is_logical_imm w ≡ false
  extract : is_extract w ≡ false
  bitfield : is_bitfield w ≡ false
  data_processing_imm : is_data_processing_imm w ≡ false
  data_processing_reg : is_data_processing_reg w ≡ false

branching : (w : ℕ) → field 26 3 w ≡ 0b101 → Branching w
unfolding is_simd_load_store is_simd_three_same is_simd_copy is_load_store_pair
    is_load_store_literal is_load_store_reg_offset is_load_store_reg_indexed is_load_store_imm
    is_pc_rel_addressing is_move_wide is_cond_cmp is_conditional_select is_data_proc_2src
    is_data_proc_3src is_logical_imm is_extract is_bitfield is_data_processing_imm
    is_data_processing_reg
branching w h = record {
  simd_load_store = ground arith;
  simd_three_same = ground arith;
  simd_copy = ground arith;
  load_store_pair = ground arith;
  load_store_literal = ground arith;
  load_store_reg_offset = ground arith;
  load_store_reg_indexed = ground arith;
  load_store_imm = ground arith;
  pc_rel_addressing = ground arith;
  move_wide = ground arith;
  cond_cmp = ground arith;
  conditional_select = ground arith;
  data_proc_2src = ground arith;
  data_proc_3src = ground arith;
  logical_imm = ground arith;
  extract = ground arith;
  bitfield = ground arith;
  data_processing_imm = ground arith;
  data_processing_reg = ground arith;
}

pub decode_test_branch_class :
    (w : ℕ) → is_test_branch w ≡ true → decode w ≡ decode_test_branch w blank
unfolding decode
decode_test_branch_class w h =
    let s = branching w (unfold is_test_branch in ground arith) in
    simp (
      s.simd_load_store, s.simd_three_same, s.simd_copy, s.load_store_pair, s.load_store_literal,
      s.load_store_reg_offset, s.load_store_reg_indexed, s.load_store_imm, s.pc_rel_addressing,
      s.move_wide, s.cond_cmp, s.conditional_select, s.data_proc_2src, s.data_proc_3src,
      s.logical_imm, s.extract, s.bitfield, s.data_processing_imm, s.data_processing_reg, h,
    )

pub decode_compare_branch_class :
    (w : ℕ) → is_compare_branch w ≡ true → decode w ≡ decode_compare_branch w blank
unfolding decode
decode_compare_branch_class w h =
    let s = branching w (unfold is_compare_branch in ground arith) in
    let test_branch : is_test_branch w ≡ false =
      unfold is_test_branch is_compare_branch in ground arith in
    simp (
      s.simd_load_store, s.simd_three_same, s.simd_copy, s.load_store_pair, s.load_store_literal,
      s.load_store_reg_offset, s.load_store_reg_indexed, s.load_store_imm, s.pc_rel_addressing,
      s.move_wide, s.cond_cmp, s.conditional_select, s.data_proc_2src, s.data_proc_3src,
      s.logical_imm, s.extract, s.bitfield, s.data_processing_imm, s.data_processing_reg,
      test_branch, h,
    )

pub decode_branch_imm_class :
    (w : ℕ) → is_branch_imm w ≡ true → decode w ≡ decode_branch_imm w blank
unfolding decode
decode_branch_imm_class w h =
    let s = branching w (unfold is_branch_imm in ground arith) in
    let test_branch : is_test_branch w ≡ false =
      unfold is_test_branch is_branch_imm in ground arith in
    let compare_branch : is_compare_branch w ≡ false =
      unfold is_compare_branch is_branch_imm in ground arith in
    simp (
      s.simd_load_store, s.simd_three_same, s.simd_copy, s.load_store_pair, s.load_store_literal,
      s.load_store_reg_offset, s.load_store_reg_indexed, s.load_store_imm, s.pc_rel_addressing,
      s.move_wide, s.cond_cmp, s.conditional_select, s.data_proc_2src, s.data_proc_3src,
      s.logical_imm, s.extract, s.bitfield, s.data_processing_imm, s.data_processing_reg,
      test_branch, compare_branch, h,
    )

pub decode_branch_cond_class :
    (w : ℕ) → is_branch_cond w ≡ true → decode w ≡ decode_branch_cond w blank
unfolding decode
decode_branch_cond_class w h =
    let s = branching w (unfold is_branch_cond in ground arith) in
    let test_branch : is_test_branch w ≡ false =
      unfold is_test_branch is_branch_cond in ground arith in
    let compare_branch : is_compare_branch w ≡ false =
      unfold is_compare_branch is_branch_cond in ground arith in
    let branch_imm : is_branch_imm w ≡ false =
      unfold is_branch_imm is_branch_cond in ground arith in
    simp (
      s.simd_load_store, s.simd_three_same, s.simd_copy, s.load_store_pair, s.load_store_literal,
      s.load_store_reg_offset, s.load_store_reg_indexed, s.load_store_imm, s.pc_rel_addressing,
      s.move_wide, s.cond_cmp, s.conditional_select, s.data_proc_2src, s.data_proc_3src,
      s.logical_imm, s.extract, s.bitfield, s.data_processing_imm, s.data_processing_reg,
      test_branch, compare_branch, branch_imm, h,
    )
