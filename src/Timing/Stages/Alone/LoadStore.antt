-- ===== src/Timing/Stages/Alone/LoadStore.antt =====
-- A load or a store alone in the pipeline, against the emulator's handler.
use m1sim.Base.{
  ℕ, Bool, true, false, ◌≡◌, ◌⊎◌, ◌∙◌, ◌==◌, refl, ap, fun_ext, subst, not, ◌&&◌, inl, inr, arith,
  add64,
}
use m1sim.Insts.{Op, Format, IndexMode, Instruction}
use m1sim.Emu.RegFile.{RegFile, write_reg, update}
use m1sim.Emu.Memory.{Memory, read32, read64}
use m1sim.Emu.Exec.MemoryOps.{base_of, address_of, write_back, access, execute_load_store}
use m1sim.Timing.Stages.{decode_result, is_load_op, is_store_op, is_reg_write_inst}
use m1sim.Timing.Stages.Execute.{execute, accesses, effective_address}
use m1sim.Timing.Stages.MemoryStage.{memory_access}
use m1sim.Timing.Writeback.{writeback_slot}
use m1sim.Timing.Stages.Alone.{alone}

-- The modes that add an immediate, if any, to the base.
pub data Mode : IndexMode → Type 0 where
  none : Mode IndexMode.index_none
  pre : Mode IndexMode.index_pre
  post : Mode IndexMode.index_post

-- An instruction with its operation, format and mode filled in.
abbrev shaped : Op → IndexMode → Instruction → Instruction
shaped op mode i = record i { op = op; format = Format.load_store; index_mode = mode }

Agrees : Instruction → ℕ → RegFile → Memory → Type 0
Agrees i pc r m =
    let s = execute_load_store i (record { regs = r; mem = m }) in alone i pc r m ≡ (s.regs, s.mem)

-- A load whose base moves into the register that it loads.
abbrev pub loads_base : Op → Bool
loads_base op = elim op [ Op.ldr ↦ true | _ ↦ false ]

abbrev pub moves_base : IndexMode → Bool
moves_base mode = elim mode [ IndexMode.index_pre ↦ true | IndexMode.index_post ↦ true | _ ↦ false ]

abbrev pub overwrites_base : Instruction → Bool
overwrites_base i = loads_base i.op && moves_base i.index_mode && not (i.rn == 31) && i.rd == i.rn

-- Two registers are written in either order.
update_comm :
    (f : ℕ → ℕ) (a b u v : ℕ)
    → (a == b) ≡ false
    → update (update f b v) a u ≡ update (update f a u) b v
update_comm f a b u v h = fun_ext (λ j. ground arith)

shaped_str-Agrees :
    (i : Instruction) (pc : ℕ) (r : RegFile) (m : Memory) {mode : IndexMode}
    → Mode mode
    → Agrees (shaped Op.str mode i) pc r m
unfolding Agrees alone decode_result execute accesses memory_access writeback_slot is_load_op
    is_store_op is_reg_write_inst execute_load_store access effective_address address_of base_of
    write_back
shaped_str-Agrees i pc r m none = ground arith
shaped_str-Agrees i pc r m pre = ground arith
shaped_str-Agrees i pc r m post = ground arith

-- The loaded register is written after the base here, and before it in the emulator.
shaped_ldr-Agrees :
    (i : Instruction) (pc : ℕ) (r : RegFile) (m : Memory) {mode : IndexMode}
    → Mode mode
    → overwrites_base (shaped Op.ldr mode i) ≡ false
    → Agrees (shaped Op.ldr mode i) pc r m
unfolding Agrees alone decode_result execute accesses memory_access writeback_slot is_load_op
    is_store_op is_reg_write_inst execute_load_store access effective_address address_of base_of
    write_back write_reg
shaped_ldr-Agrees i pc r m none h = ground arith
shaped_ldr-Agrees i pc r m pre h =
    let b = base_of i r in
    let a = add64 b i.signed_imm in
    ground
      (arith, update_comm r.x i.rd i.rn (read64 a m) a, update_comm r.x i.rd i.rn (read32 a m) a)
shaped_ldr-Agrees i pc r m post h =
    let b = base_of i r in
    let a = add64 b i.signed_imm in
    ground
      (arith, update_comm r.x i.rd i.rn (read64 b m) a, update_comm r.x i.rd i.rn (read32 b m) a)

shape :
    (i : Instruction) {op : Op} {mode : IndexMode}
    → i.op ≡ op
    → i.index_mode ≡ mode
    → i.format ≡ Format.load_store
    → shaped op mode i ≡ i
shape i h e f = ground arith

alone-Agrees :
    (i : Instruction) (pc : ℕ) (r : RegFile) (m : Memory) {mode : IndexMode}
    → Mode mode
    → i.index_mode ≡ mode
    → (i.op ≡ Op.ldr) ⊎ (i.op ≡ Op.str)
    → i.format ≡ Format.load_store
    → overwrites_base i ≡ false
    → Agrees i pc r m
alone-Agrees i pc r m q e (inl h) f k =
    let g = shape i h e f in
    subst (λ i. Agrees i pc r m) g (shaped_ldr-Agrees i pc r m q (ap overwrites_base g ∙ k))
alone-Agrees i pc r m q e (inr h) f k =
    subst (λ i. Agrees i pc r m) (shape i h e f) (shaped_str-Agrees i pc r m q)

-- Alone in the pipeline, an LDR or STR of either width, with an immediate offset or with pre- or
-- post-indexing, leaves the registers, the base among them, and the memory as the handler of the
-- emulator does, provided that an indexed LDR does not load its own base register (other than SP).
pub alone-load_store :
    (i : Instruction) (pc : ℕ) (r : RegFile) (m : Memory)
    → (i.op ≡ Op.ldr) ⊎ (i.op ≡ Op.str)
    → i.format ≡ Format.load_store
    → Mode i.index_mode
    → overwrites_base i ≡ false
    → let s = execute_load_store i (record { regs = r; mem = m }) in
      alone i pc r m ≡ (s.regs, s.mem)
unfolding Agrees
alone-load_store i pc r m h f q k = alone-Agrees i pc r m q refl h f k
