-- ===== src/Timing/Superscalar/Tests.antt =====
-- timing/pipeline/superscalar.go on a load with an addition or a store.
use m1sim.Base.{true, false, ◌+◌, ◌≤◌, ◌≡◌, Option, some, List, [], ◌∷◌, refl}
use mathlib.Core.List.{Memᴰ}
use m1sim.Insts.{Op, Format, blank}
use m1sim.Timing.Registers.{IdEx}
use m1sim.Timing.Superscalar.{
  can_dual_issue, can_issue_with, can_issue_registers, count_ports, conflicts, within_ports,
  is_alu_op, max_mem_ports, max_store_ports, max_alu_ports, max_write_ports,
}
use m1sim.Insts.Decoder.{decode}
use m1sim.Emu.RegFile.{zero_regs}
use m1sim.Timing.Hazard.LoadUse.{load_use_hazard}
use m1sim.Timing.Stages.{decode_stage, is_branch_inst, is_load_op, is_store_op, is_reg_write_inst}
use m1sim.Insts.Memory.{decode_load_store_imm}
use m1sim.Insts.Classify.{
  is_simd_load_store, is_simd_three_same, is_simd_copy, is_load_store_pair, is_load_store_literal,
  is_load_store_reg_offset, is_load_store_reg_indexed, is_load_store_imm,
}
use m1sim.Timing.Stages.Alone.{latch_decode}
use m1sim.Timing.Superscalar.Loop.{is_flags_branch}
use m1sim.Timing.Superscalar.Loads.{latch_decode-IsDecoded}
use m1sim.Timing.Superscalar.Hazards.{can_issue_with-load_use}
use m1sim.Timing.Superscalar.Ports.{totals, can_issue_with-totals}
use m1sim.Timing.Superscalar.Dual.{can_dual_issue-can_issue_with}

abbrev idle : IdEx
idle = record {
  valid = true;
  pc = 0;
  inst = some blank;
  rn_value = 0;
  rm_value = 0;
  rd = 31;
  rn = 31;
  rm = 31;
  mem_read = false;
  mem_write = false;
  reg_write = false;
  mem_to_reg = false;
  is_branch = false;
  predicted_taken = false;
  predicted_target = 0;
  early_resolved = false;
  is_fused = false;
  fused_rn_val = 0;
  fused_rm_val = 0;
  fused_is_64 = false;
  fused_is_imm = false;
  fused_imm_val = 0;
}

-- LDR X1, [X2] and ADD X3, X4, X5.
abbrev a_load : IdEx
a_load = record idle {
  inst = some (record blank { op = Op.ldr; rd = 1; rn = 2 });
  rd = 1;
  rn = 2;
  mem_read = true;
  reg_write = true;
}

abbrev an_add : IdEx
an_add = record idle {
  inst = some (record blank { op = Op.add; format = Format.dp_reg; rd = 3; rn = 4; rm = 5 });
  rd = 3;
  rn = 4;
  rm = 5;
  reg_write = true;
}

abbrev loaded_first : List (Option IdEx)
loaded_first = some a_load ∷ []

an_add-issues : can_issue_with (some an_add) loaded_first ≡ true
unfolding can_issue_with can_issue_registers count_ports conflicts within_ports is_alu_op
an_add-issues = refl

-- STR X5, [X4], which the decode stage gives behind the load.
abbrev a_store : IdEx
a_store = latch_decode 0 (decode_stage 0xF9000085 zero_regs)

a_store-issues : can_issue_with (some a_store) loaded_first ≡ true
unfolding decode decode_stage can_issue_with can_issue_registers count_ports conflicts within_ports
    is_alu_op is_branch_inst is_simd_load_store is_simd_three_same is_simd_copy is_load_store_pair
    is_load_store_literal is_load_store_reg_offset is_load_store_reg_indexed is_load_store_imm
    decode_load_store_imm is_load_op is_store_op is_reg_write_inst
a_store-issues = refl

a_store-no_branch : is_flags_branch a_store ≡ false
unfolding decode decode_stage is_branch_inst is_simd_load_store is_simd_three_same is_simd_copy
    is_load_store_pair is_load_store_literal is_load_store_reg_offset is_load_store_reg_indexed
    is_load_store_imm decode_load_store_imm
a_store-no_branch = refl

can_issue_with-load_use_example : load_use_hazard a_load true 0xF9000085 ≡ false
can_issue_with-load_use_example =
    can_issue_with-load_use a_store a_load loaded_first a_store-no_branch a_store-issues
      (Memᴰ.head refl) refl refl 0xF9000085 true (latch_decode-IsDecoded 0 0xF9000085 zero_regs)

can_issue_with-totals_example :
    (an_add.valid ≡ true)
    × ((totals (some an_add ∷ loaded_first)).loads + (totals (some an_add ∷ loaded_first)).stores
        ≤ max_mem_ports)
    × ((totals (some an_add ∷ loaded_first)).stores ≤ max_store_ports)
    × ((totals (some an_add ∷ loaded_first)).alu_ops ≤ max_alu_ports)
    × ((totals (some an_add ∷ loaded_first)).write_ports ≤ max_write_ports)
can_issue_with-totals_example = can_issue_with-totals an_add loaded_first refl an_add-issues

can_dual_issue-can_issue_with_example : can_dual_issue (some a_load) (some an_add) ≡ true
can_dual_issue-can_issue_with_example =
    can_dual_issue-can_issue_with a_load an_add refl refl refl refl an_add-issues
