-- ===== src/Timing/FastTiming/Tests.antt =====
-- timing/pipeline/fast_timing.go on small inputs.
use m1sim.Base.{ℕ, true, false, ◌≡◌, none, sub64, arith}
use m1sim.Emu.RegFile.{Pstate, zero_regs}
use m1sim.Emu.Memory.{empty, write32}
use m1sim.Emu.Alu.{set_sub_flags64}
use m1sim.Emu.Branch.{check_condition}
use m1sim.Timing.Latency.{default_timing_config}
use m1sim.Timing.FastTiming.State.{FastTiming, new_fast_timing}
use m1sim.Timing.FastTiming.{run_fast}
use m1sim.Timing.FastTiming.Values.{evaluate_condition, update_flags_sub}
use m1sim.Timing.FastTiming.Conditions.{
  evaluate_condition-check_condition, update_flags_sub-set_sub_flags64,
}
use m1sim.Timing.FastTiming.Running.{Ends, run_fast_lem}

abbrev less : Pstate
less = record { n = true; z = false; c = false; v = false }

-- LT.
evaluate_condition-check_condition_example :
    evaluate_condition 0b1011 less ≡ check_condition 0b1011 less
evaluate_condition-check_condition_example =
    evaluate_condition-check_condition 0b1011 less (omega arith)

update_flags_sub-set_sub_flags64_example :
    update_flags_sub 3 5 (sub64 3 5) true ≡ (set_sub_flags64 3 5 (sub64 3 5) zero_regs).pstate
update_flags_sub-set_sub_flags64_example =
    update_flags_sub-set_sub_flags64 3 5 zero_regs (omega arith) (omega arith)

-- B . at 0, for five instructions.
abbrev looping : FastTiming ℕ
looping = new_fast_timing zero_regs (write32 0 0x14000000 empty) 0 5

run_fast_lem_example :
    Ends none default_timing_config 5 (run_fast none default_timing_config 7 looping)
unfolding new_fast_timing
run_fast_lem_example =
    run_fast_lem none default_timing_config 7 looping (omega arith) (omega arith) (omega arith)
      (omega arith)
