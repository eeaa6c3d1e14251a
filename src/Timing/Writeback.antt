-- ===== src/Timing/Writeback.antt =====
-- timing/pipeline/stages.go: the write-back stage, `WritebackSlot` and `WritebackSlots`.
use m1sim.Base.{
  ℕ, Bool, true, false, ◌&&◌, ◌||◌, not, ◌==◌, ◌+◌, if◌then◌else◌, none, some, add64, List, [], ◌∷◌,
}
use m1sim.Insts.{IndexMode}
use m1sim.Emu.RegFile.{RegFile, write_reg}
use m1sim.Timing.Registers.{MemWb}
use m1sim.Timing.Hazard.{is_ldp, rt2_of}

-- The base register after an indexed access: it is in Rn, or in SP for 31.
abbrev write_base : ℕ → ℕ → RegFile → RegFile
write_base rn value r = if rn == 31 then record r { sp = value } else write_reg rn value r

unfoldable pub perform_base_writeback : MemWb → RegFile → RegFile
perform_base_writeback slot r = elim slot.inst [
  | none ↦ r
  | some i ↦ elim i.index_mode [
    | IndexMode.index_pre ↦ write_base i.rn slot.alu_result r
    | IndexMode.index_post ↦ write_base i.rn (add64 slot.alu_result i.signed_imm) r
    | _ ↦ r
  ]
]

-- The registers afterwards, and whether an instruction retired.
unfoldable pub writeback_slot : MemWb → RegFile → RegFile × Bool
unfolding perform_base_writeback
writeback_slot slot r =
    let based = perform_base_writeback slot r in
    let value = if slot.mem_to_reg then slot.mem_data else slot.alu_result in
    let first = write_reg slot.rd value based in
    let second =
      if is_ldp slot.inst && slot.mem_to_reg && not (rt2_of slot.inst == 31)
      then write_reg (rt2_of slot.inst) slot.mem_data2 first
      else first in
    if slot.valid
    then (if slot.reg_write && not (slot.rd == 31) then (second, true) else (based, true))
    else (r, false)

-- The older `Writeback`, with neither base registers nor pairs.
unfoldable pub writeback : MemWb → RegFile → RegFile
writeback slot r =
    if slot.valid && slot.reg_write && not (slot.rd == 31)
    then write_reg slot.rd (if slot.mem_to_reg then slot.mem_data else slot.alu_result) r
    else r

-- The slots in order, and the number of instructions retired: the body of `WritebackSlot` inlined.
unfoldable pub writeback_slots : List MemWb → RegFile → RegFile × ℕ
unfolding perform_base_writeback
writeback_slots [] r = (r, 0)
writeback_slots (slot ∷ slots) r =
    let based = perform_base_writeback slot r in
    let value = if slot.mem_to_reg then slot.mem_data else slot.alu_result in
    let first = write_reg slot.rd value based in
    let second =
      if is_ldp slot.inst && slot.mem_to_reg && not (rt2_of slot.inst == 31)
      then write_reg (rt2_of slot.inst) slot.mem_data2 first
      else first in
    let written =
      if slot.valid then (if not slot.reg_write || slot.rd == 31 then based else second) else r in
    let (final, retired) = writeback_slots slots written in
    (final, if slot.valid then retired + 1 else retired)
