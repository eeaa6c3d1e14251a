-- ===== src/Timing/Tests.antt =====
-- Small runs of timing/pipeline.
use m1sim.Base.{◌%◌, inl, ◌*◌, true, false, ◌≡◌, refl, arith}
use m1sim.Base.{some}
use m1sim.Insts.{Op, Format, Instruction, blank}
use m1sim.Emu.Memory.{empty}
use m1sim.Emu.RegFile.{RegFile, no_flags}
use m1sim.Emu.Branch.{check_condition}
use m1sim.Emu.Exec.DataReg.{execute_dp_reg}
use m1sim.Timing.Registers.{IdEx}
use m1sim.Timing.Stages.{decode_result}
use m1sim.Timing.Stages.Alone.{alone, latch_decode}
use m1sim.Timing.Stages.Alone.DpReg.{Supported, alone-dp_reg}
use m1sim.Timing.Stages.Execute.{condition_met}
use m1sim.Timing.Stages.Fusion.{compared, condition_met-compared}
use m1sim.Emu.RegFile.{zero_regs, read_reg}
use m1sim.Timing.Registers.{ExMem, MemWb, empty_ex_mem, empty_mem_wb}
use m1sim.Timing.Hazard.{detect_forward_for_reg, get_forwarded_value}
use m1sim.Timing.Hazard.Forwarding.{passed_on, get_forwarded_value_lem}
use m1sim.Insts.{IndexMode}
use m1sim.Emu.Exec.MemoryOps.{execute_load_store}
use m1sim.Timing.Stages.Alone.LoadStore.{Mode, alone-load_store}
use m1sim.Timing.Writeback.{writeback_slot}
use m1sim.Timing.BranchPredictor.{Config, BranchPredictor, new_branch_predictor, predict, update}
use m1sim.Timing.BranchPredictor.Training.{IsValid, update-IsValid, new_branch_predictor-IsValid}
use m1sim.Timing.BranchPredictor.Targets.{predict-update_target}

abbrev small : Config
small = record { bht_size = 4; btb_size = 2; global_history_length = 2; use_tournament = true }

abbrev legacy : Config
legacy = record { bht_size = 4; btb_size = 2; global_history_length = 2; use_tournament = false }

abbrev fresh : BranchPredictor
fresh = new_branch_predictor small

update-IsValid_example : IsValid (update 0x1008 true 0x2000 fresh)
update-IsValid_example =
    update-IsValid 0x1008 true 0x2000
      (new_branch_predictor-IsValid small (omega arith) (omega arith))

predict-update_target_example :
    let prediction = (predict 0x1008 (update 0x1008 true 0x2000 fresh)).0 in
    (prediction.target_known ≡ true) × (prediction.target ≡ 0x2000)
predict-update_target_example =
    predict-update_target 0x1008 0x2000
      (new_branch_predictor-IsValid small (omega arith) (omega arith))

-- LDP X29, X30, [SP] in write-back, an addition to X3 before it.
abbrev pair : MemWb
pair = record empty_mem_wb {
  valid = true;
  inst = some (record blank { op = Op.ldp; format = Format.load_store_pair; rd = 29; rt2 = 30 });
  mem_data = 7;
  mem_data2 = 9;
  rd = 29;
  reg_write = true;
  mem_to_reg = true;
}

abbrev addition : ExMem
addition = record empty_ex_mem { valid = true; alu_result = 11; rd = 3; reg_write = true }

get_forwarded_value_lem_example :
    get_forwarded_value
      (detect_forward_for_reg 30 addition pair)
      (read_reg 30 zero_regs)
      addition
      pair
    ≡ read_reg 30 (writeback_slot (passed_on addition) (writeback_slot pair zero_regs).0).0
get_forwarded_value_lem_example =
    get_forwarded_value_lem 30 addition pair zero_regs refl refl refl
      (λ h. (refl, refl, omega arith, omega arith))

-- ADDS W1, W2, W3, LSL #4
abbrev adds : Instruction
adds = record blank {
  op = Op.add;
  format = Format.dp_reg;
  rd = 1;
  rn = 2;
  rm = 3;
  set_flags = true;
  shift_amount = 4;
}

abbrev values : RegFile
values = record zero_regs { x = λ n. n * 0x10000000 }

alone-dp_reg_example : alone adds 0x1000 values empty ≡ (execute_dp_reg adds values, empty)
alone-dp_reg_example = alone-dp_reg adds 0x1000 values empty refl refl Supported.add

-- LDR W1, [X2], #8
abbrev a_load : Instruction
a_load = record blank {
  op = Op.ldr;
  format = Format.load_store;
  index_mode = IndexMode.index_post;
  rd = 1;
  rn = 2;
  signed_imm = 8;
}

alone-load_store_example :
    let s = execute_load_store a_load (record { regs = values; mem = λ a. a % 256 }) in
    alone a_load 0x1000 values (λ a. a % 256) ≡ (s.regs, s.mem)
alone-load_store_example =
    alone-load_store a_load 0x1000 values (λ a. a % 256) (inl refl) refl Mode.post refl

-- B.cond with the operands of CMP X0, #5 before it, where X0 = 3.
abbrev fused_branch : IdEx
fused_branch =
    record (latch_decode 0x1000 (decode_result (record blank { op = Op.b_cond }) values)) {
      is_fused = true;
      fused_rn_val = 3;
      fused_is_64 = true;
      fused_is_imm = true;
      fused_imm_val = 5;
    }

condition_met-compared_example :
    condition_met fused_branch 0b1011 false no_flags values
    ≡ check_condition 0b1011 (compared true 3 5 values).pstate
condition_met-compared_example =
    condition_met-compared fused_branch 0b1011 false no_flags values refl
