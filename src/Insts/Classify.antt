-- ===== src/Insts/Classify.antt =====
-- insts/decoder.go: the tests by which `decodeInto` finds an instruction's class.
use m1sim.Base.{ℕ, Bool, ◌&&◌, ◌||◌, ◌==◌, field}

unfoldable pub is_data_processing_imm : ℕ → Bool
is_data_processing_imm word = field 23 6 word == 0b100010

unfoldable pub is_data_processing_reg : ℕ → Bool
is_data_processing_reg word = let op = field 24 5 word in op == 0b01011 || op == 0b01010

unfoldable pub is_branch_imm : ℕ → Bool
is_branch_imm word = let op = field 26 6 word in op == 0b000101 || op == 0b100101

unfoldable pub is_branch_cond : ℕ → Bool
is_branch_cond word = field 25 7 word == 0b0101010 && field 4 1 word == 0

unfoldable pub is_branch_reg : ℕ → Bool
is_branch_reg word =
    field 25 7 word == 0b1101011 && (field 10 6 word == 0b000000 && field 0 5 word == 0b00000)

unfoldable pub is_load_store_imm : ℕ → Bool
is_load_store_imm word =
    field 27 3 word == 0b111 && (field 26 1 word == 0 && field 24 2 word == 0b01)

unfoldable pub is_nop : ℕ → Bool
is_nop word = word == 0xd503201f

unfoldable pub is_exception : ℕ → Bool
is_exception word =
    let hi = field 21 11 word in
    let lo = field 0 5 word in
    (hi == 0b11010100000 && lo == 0b00001) || (hi == 0b11010100001 && lo == 0b00000)

unfoldable pub is_simd_load_store : ℕ → Bool
is_simd_load_store word = field 26 4 word == 0b1111

unfoldable pub is_simd_three_same : ℕ → Bool
is_simd_three_same word =
    field 31 1 word == 0 && (field 24 5 word == 0b01110 && field 21 1 word == 1)

unfoldable pub is_pc_rel_addressing : ℕ → Bool
is_pc_rel_addressing word = field 24 5 word == 0b10000

unfoldable pub is_load_store_literal : ℕ → Bool
is_load_store_literal word = field 27 3 word == 0b011 && field 24 2 word == 0b00

unfoldable pub is_move_wide : ℕ → Bool
is_move_wide word = field 23 6 word == 0b100101

unfoldable pub is_load_store_pair : ℕ → Bool
is_load_store_pair word =
    let mode = field 23 3 word in
    field 27 3 word == 0b101 && (mode == 0b001 || (mode == 0b010 || mode == 0b011))

unfoldable pub is_load_store_reg_offset : ℕ → Bool
is_load_store_reg_offset word =
    field 27 3 word == 0b111
    && (field 24 2 word == 0b00 && (field 21 1 word == 1 && field 10 2 word == 0b10))

unfoldable pub is_load_store_reg_indexed : ℕ → Bool
is_load_store_reg_indexed word =
    field 27 3 word == 0b111 && (field 24 2 word == 0b00 && field 21 1 word == 0)

-- The source masks bits [29:25] once more by 0xF.
unfoldable pub is_cond_cmp : ℕ → Bool
is_cond_cmp word =
    field 0 4 (field 25 5 word) == 0b1101
    && (field 21 4 word == 0b0010 && (field 10 1 word == 0 && field 4 1 word == 0))

unfoldable pub is_conditional_select : ℕ → Bool
is_conditional_select word = field 21 9 word == 0b011010100

unfoldable pub is_data_proc_2src : ℕ → Bool
is_data_proc_2src word = field 21 9 word == 0b011010110

unfoldable pub is_data_proc_3src : ℕ → Bool
is_data_proc_3src word = field 24 5 word == 0b11011

unfoldable pub is_logical_imm : ℕ → Bool
is_logical_imm word = field 23 6 word == 0b100100

unfoldable pub is_extract : ℕ → Bool
is_extract word = field 23 6 word == 0b100111 && (field 29 2 word == 0b00 && field 21 1 word == 0)

unfoldable pub is_bitfield : ℕ → Bool
is_bitfield word = field 23 6 word == 0b100110

unfoldable pub is_test_branch : ℕ → Bool
is_test_branch word = field 25 6 word == 0b011011

unfoldable pub is_compare_branch : ℕ → Bool
is_compare_branch word = field 25 6 word == 0b011010

unfoldable pub is_simd_copy : ℕ → Bool
is_simd_copy word =
    field 24 8 word == 0b01001110 && (field 21 1 word == 0 && field 10 6 word == 0b000011)

unfoldable pub is_system_reg : ℕ → Bool
is_system_reg word = field 20 12 word == 0xD53
