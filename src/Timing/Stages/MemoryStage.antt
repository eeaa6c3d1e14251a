-- ===== src/Timing/Stages/MemoryStage.antt =====
-- timing/pipeline/stages.go: the memory stage.
use m1sim.Base.{ℕ, Bool, true, false, if◌then◌else◌, Option, none, some, u32, add64}
use m1sim.Insts.{Op, Instruction}
use m1sim.Emu.Memory.{Memory, read32, read64, write32, write64}
use m1sim.Timing.Registers.{ExMem}
use m1sim.Timing.Hazard.{is_ldp}

pub record MemoryResult : Type 0 where
  pub mem_data : ℕ
  pub mem_data2 : ℕ

-- `inst != nil && inst.Is64Bit`
abbrev pub is_wide : Option Instruction → Bool
is_wide none = false
is_wide (some i) = i.is_64bit

-- `inst != nil && inst.Op == insts.OpSTP`
abbrev pub is_stp : Option Instruction → Bool
is_stp none = false
is_stp (some i) = elim i.op [ Op.stp ↦ true | _ ↦ false ]

abbrev pub no_data : MemoryResult
no_data = record { mem_data = 0; mem_data2 = 0 }

-- The two values that a load reads.
unfoldable pub loaded : ExMem → Memory → MemoryResult
loaded slot m =
    let addr = slot.alu_result in
    let pair = is_ldp slot.inst in
    if is_wide slot.inst
    then record {
      mem_data = read64 addr m;
      mem_data2 = if pair then read64 (add64 addr 8) m else 0;
    }
    else record {
      mem_data = read32 addr m;
      mem_data2 = if pair then read32 (add64 addr 4) m else 0;
    }

unfoldable pub stored : ExMem → Memory → Memory
stored slot m =
    let addr = slot.alu_result in
    let pair = is_stp slot.inst in
    let wide = write64 addr slot.store_value m in
    let narrow = write32 addr (u32 slot.store_value) m in
    if is_wide slot.inst
    then (if pair then write64 (add64 addr 8) slot.store_value2 wide else wide)
    else if pair
    then write32 (add64 addr 4) (u32 slot.store_value2) narrow
    else narrow

-- `Access` and `MemorySlot` have one body.
unfoldable pub memory_access : ExMem → Memory → MemoryResult × Memory
unfolding loaded stored
memory_access slot m =
    if slot.valid
    then (
      if slot.mem_read then loaded slot m else no_data,
      if slot.mem_write then stored slot m else m,
    )
    else (no_data, m)
