-- ===== src/Timing/Hazard/LoadUse.antt =====
-- timing/pipeline/pipeline.go, `tickSingleIssue`: the test for a load in ID/EX before the
-- instruction in IF/ID.
use m1sim.Base.{ℕ, Bool, true, false, ◌&&◌, ◌==◌, not, if◌then◌else◌}
use m1sim.Insts.{Op, Format, Instruction}
use m1sim.Insts.Decoder.{decode}
use m1sim.Timing.Registers.{IdEx}
use m1sim.Timing.Hazard.{
  is_ldp, rt2_of, detect_load_use_hazard_decoded, detect_load_use_hazard_ldp_rt2,
}

-- A store whose value register takes the place of Rm.
abbrev pub has_store_value : Op → Bool
has_store_value op = elim op [ Op.str ↦ true | Op.strq ↦ true | _ ↦ false ]

abbrev pub source_rm : Instruction → ℕ
source_rm next = if has_store_value next.op then next.rd else next.rm

abbrev pub uses_rm : Instruction → Bool
uses_rm next = elim next.format [ Format.dp_reg ↦ true | _ ↦ has_store_value next.op ]

-- The body of the test, for the decoded next instruction.
unfoldable pub next_uses_load : IdEx → Instruction → Bool
unfolding detect_load_use_hazard_decoded detect_load_use_hazard_ldp_rt2
next_uses_load idex next =
    let first =
      detect_load_use_hazard_decoded idex.rd next.rn (source_rm next) true (uses_rm next) in
    let second =
      detect_load_use_hazard_ldp_rt2 (rt2_of idex.inst) next.rn (source_rm next) true
        (uses_rm next) in
    elim next.op [
      | Op.unknown ↦ false
      | _ ↦ if not first && is_ldp idex.inst then second else first
    ]

-- `loadUseHazard`, for the word in IF/ID and whether that register is valid.
unfoldable pub load_use_hazard : IdEx → Bool → ℕ → Bool
unfolding next_uses_load
load_use_hazard idex ifid_valid word =
    if idex.valid && idex.mem_read && not (idex.rd == 31) && ifid_valid
    then next_uses_load idex (decode word)
    else false
