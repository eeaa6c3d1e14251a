-- ===== src/Emu/Exec/MemoryOps.antt =====
-- emu/emulator.go: loads, stores and PC-relative addresses.
pub mod Addressing
pub mod Sequential
use m1sim.Base.{
  ℕ, Bool, true, false, ◌==◌, if◌then◌else◌, u32, add64, shl64, not64, sext32_64, bit_and,
}
use m1sim.Insts.{Op, IndexMode, Instruction}
use m1sim.Emu.RegFile.{RegFile, read_reg, write_reg}
use m1sim.Emu.Memory.{Memory, read32, read64, write32, write64}
use m1sim.Emu.LoadStore.{ldrb, ldrsb64, ldrsb32, ldrh, ldrsh64, ldrsh32, ldrsw, strb, strh}

-- The two pieces of state that the load/store unit reaches.
pub record Space : Type 0 where
  pub regs : RegFile
  pub mem : Memory

-- The base register, where 31 is SP.
unfoldable pub base_of : Instruction → RegFile → ℕ
base_of i r = if i.rn == 31 then r.sp else read_reg i.rn r

-- The register offset: the option in `shift_type` extends Rm, and the scale shifts it.
unfoldable pub extended_offset : Instruction → RegFile → ℕ
extended_offset i r =
    let rm = read_reg i.rm r in
    let extended =
      if i.shift_type == 0b010
      then u32 rm
      else if i.shift_type == 0b110
      then sext32_64 (u32 rm)
      else rm in
    shl64 extended i.shift_amount

unfoldable pub address_of : Instruction → RegFile → ℕ
unfolding base_of extended_offset
address_of i r = elim i.index_mode [
  | IndexMode.index_pre ↦ add64 (base_of i r) i.signed_imm
  | IndexMode.index_post ↦ base_of i r
  | IndexMode.index_reg_base ↦ add64 (base_of i r) (extended_offset i r)
  | _ ↦ add64 (base_of i r) i.imm
]

abbrev writes_back : IndexMode → Bool
writes_back IndexMode.index_pre = true
writes_back IndexMode.index_post = true
writes_back _ = false

-- The base is the value from before the access, and the write comes after it.
unfoldable pub write_back : Instruction → ℕ → RegFile → RegFile
write_back i base r =
    let new_base = add64 base i.signed_imm in
    if writes_back i.index_mode
    then (if i.rn == 31 then record r { sp = new_base } else write_reg i.rn new_base r)
    else r

-- The `switch inst.Op` of `executeLoadStore`.
unfoldable pub access : Instruction → ℕ → Space → Space
access i addr s =
    let r = s.regs in
    let m = s.mem in
    elim i.op [
      | Op.ldr ↦ record s {
        regs = write_reg i.rd (if i.is_64bit then read64 addr m else read32 addr m) r;
      }
      | Op.str ↦ record s {
        mem =
            if i.is_64bit
            then write64 addr (read_reg i.rd r) m
            else write32 addr (u32 (read_reg i.rd r)) m;
      }
      | Op.ldrb ↦ record s { regs = ldrb i.rd addr m r }
      | Op.strb ↦ record s { mem = strb i.rd addr r m }
      | Op.ldrsb ↦ record s {
        regs = if i.is_64bit then ldrsb64 i.rd addr m r else ldrsb32 i.rd addr m r;
      }
      | Op.ldrh ↦ record s { regs = ldrh i.rd addr m r }
      | Op.strh ↦ record s { mem = strh i.rd addr r m }
      | Op.ldrsh ↦ record s {
        regs = if i.is_64bit then ldrsh64 i.rd addr m r else ldrsh32 i.rd addr m r;
      }
      | Op.ldrsw ↦ record s { regs = ldrsw i.rd addr m r }
      | _ ↦ s
    ]

unfoldable pub execute_load_store : Instruction → Space → Space
unfolding base_of
execute_load_store i s =
    let accessed = access i (address_of i s.regs) s in
    record accessed { regs = write_back i (base_of i s.regs) accessed.regs }

unfoldable pub pair_address_of : Instruction → RegFile → ℕ
unfolding base_of
pair_address_of i r = elim i.index_mode [
  | IndexMode.index_pre ↦ add64 (base_of i r) i.signed_imm
  | IndexMode.index_post ↦ base_of i r
  | _ ↦ add64 (base_of i r) i.signed_imm
]

-- The `switch inst.Op` of `executeLoadStorePair`.
unfoldable pub access_pair : Instruction → ℕ → Space → Space
access_pair i addr s =
    let r = s.regs in
    let m = s.mem in
    let second = add64 addr (if i.is_64bit then 8 else 4) in
    elim i.op [
      | Op.ldp ↦
          let val1 = if i.is_64bit then read64 addr m else read32 addr m in
          let val2 = if i.is_64bit then read64 second m else read32 second m in
          record s { regs = write_reg i.rt2 val2 (write_reg i.rd val1 r) }
      | Op.stp ↦
          let val1 = read_reg i.rd r in
          let val2 = read_reg i.rt2 r in
          record s {
            mem =
                if i.is_64bit
                then write64 second val2 (write64 addr val1 m)
                else write32 second (u32 val2) (write32 addr (u32 val1) m);
          }
      | _ ↦ s
    ]

unfoldable pub execute_load_store_pair : Instruction → Space → Space
unfolding base_of
execute_load_store_pair i s =
    let accessed = access_pair i (pair_address_of i s.regs) s in
    record accessed { regs = write_back i (base_of i s.regs) accessed.regs }

unfoldable pub execute_pc_rel : Instruction → RegFile → RegFile
execute_pc_rel i r = elim i.op [
  | Op.adr ↦ write_reg i.rd (add64 r.pc i.branch_offset) r
  | Op.adrp ↦ write_reg i.rd (add64 (bit_and r.pc (not64 0xFFF)) i.branch_offset) r
  | _ ↦ r
]

unfoldable pub execute_load_store_lit : Instruction → Memory → RegFile → RegFile
execute_load_store_lit i m r =
    let addr = add64 r.pc i.branch_offset in
    elim i.op [
      | Op.ldr_lit ↦ write_reg i.rd (if i.is_64bit then read64 addr m else read32 addr m) r
      | _ ↦ r
    ]
