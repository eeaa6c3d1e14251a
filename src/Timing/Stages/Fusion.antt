-- ===== src/Timing/Stages/Fusion.antt =====
-- A B.cond that carries the compare before it, in timing/pipeline/stages.go, against emu/branch.go.
use m1sim.Base
use m1sim.Base.{
  ℕ, Bool, true, false, ◌≡◌, refl, ap, arith, u32, if◌then◌else◌, ◌∙◌, inl, inr, Bool-cases,
}
use m1sim.Emu.RegFile.{Pstate, RegFile}
use m1sim.Emu.Alu.{set_sub_flags64, set_sub_flags32}
use m1sim.Emu.Branch.{check_condition}
use m1sim.Timing.Registers.{IdEx}
use m1sim.Timing.Stages.Arithmetic.{
  evaluate_condition_with_flags, check_condition_stage, compute_sub_flags,
}
use m1sim.Timing.Stages.Execute.{condition_met}

-- The conditions of the two packages are the same function of the flags.
pub check_condition_stage_lem :
    (cond : ℕ) (r : RegFile) → check_condition_stage cond r ≡ check_condition cond r.pstate
unfolding check_condition_stage evaluate_condition_with_flags check_condition
check_condition_stage_lem cond r = refl

-- The flags of the emulator after a compare of a and b, at a width.
abbrev pub compared : Bool → ℕ → ℕ → RegFile → RegFile
compared wide a b r =
    if wide
    then set_sub_flags64 a b (Base.sub64 a b) r
    else set_sub_flags32 (u32 a) (u32 b) (Base.sub32 (u32 a) (u32 b)) r

compute_sub_flags_lem :
    (wide : Bool) (a b : ℕ) (r : RegFile)
    → compute_sub_flags a b wide ≡ (compared wide a b r).pstate
unfolding compute_sub_flags set_sub_flags64 set_sub_flags32
compute_sub_flags_lem true a b r = refl
compute_sub_flags_lem false a b r = refl

-- A B.cond that carries the operands of the compare before it takes the branch exactly when the
-- condition of the emulator holds on the flags that the emulator's ALU sets for that compare, at
-- its width, whatever flags are forwarded or in PSTATE.
pub condition_met-compared :
    (idex : IdEx) (cond : ℕ) (forwards : Bool) (flags : Pstate) (r : RegFile)
    → idex.is_fused ≡ true
    → condition_met idex cond forwards flags r
      ≡ check_condition cond
          (compared idex.fused_is_64 idex.fused_rn_val
            (if idex.fused_is_imm then idex.fused_imm_val else idex.fused_rm_val)
            r).pstate
unfolding condition_met check_condition_stage
condition_met-compared idex cond forwards flags r h =
    let op2 = if idex.fused_is_imm then idex.fused_imm_val else idex.fused_rm_val in
    let same : condition_met idex cond forwards flags r
        ≡ evaluate_condition_with_flags cond
            (compute_sub_flags idex.fused_rn_val op2 idex.fused_is_64) =
      rw (condition_met, h) refl in
    same
    ∙ ap (evaluate_condition_with_flags cond)
        (compute_sub_flags_lem idex.fused_is_64 idex.fused_rn_val op2 r)
    ∙ check_condition_stage_lem cond (compared idex.fused_is_64 idex.fused_rn_val op2 r)
