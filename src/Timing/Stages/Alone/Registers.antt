-- ===== src/Timing/Stages/Alone/Registers.antt =====
-- Register-form data processing alone in the pipeline, against the emulator's handler.
use m1sim.Base.{
  ℕ, true, false, ◌<◌, ◌^◌, ◌%◌, ◌≡◌, ◌∙◌, ◌==◌, ◌+◌, ◌-◌, arith, refl, ap, some, if◌then◌else◌,
  u32, shl32, shr, asr32,
}
use native.Mathlib.Nat.{div-le_self}
use m1sim.Base.Bits.{bit_or-lt}
use m1sim.Insts.{Format, IndexMode, Instruction}
use m1sim.Emu.RegFile.{RegFile, read_reg, write_reg}
use m1sim.Emu.Memory.{Memory}
use m1sim.Emu.Exec.DataReg.{apply_shift64, apply_shift32}
use m1sim.Timing.Stages.Arithmetic.{shift_rm, shift_rm64, shift_rm32}
use m1sim.Timing.Stages.Execute.{execute}
use m1sim.Timing.Stages.{
  decode_result, is_load_op, is_store_op, is_reg_write_inst, is_linking, writes_a_register,
}
use m1sim.Timing.Writeback.{perform_base_writeback, writeback_slot}
use m1sim.Timing.Stages.MemoryStage.{MemoryResult, no_data, memory_access}
use m1sim.Timing.Registers.{ExMem, MemWb}
use m1sim.Timing.Stages.Alone.{alone, latch_decode, latch_execute, latch_memory}

-- The two packages shift alike.
apply_shift64_lem :
    (x shift_type amount : ℕ)
    → apply_shift64 x shift_type amount
      ≡ (if amount == 0 then x else shift_rm64 x shift_type amount)
unfolding apply_shift64 shift_rm64
apply_shift64_lem x shift_type amount = refl

apply_shift32_lem :
    (x shift_type amount : ℕ)
    → apply_shift32 x shift_type amount
      ≡ (if amount == 0 then x else shift_rm32 x shift_type amount)
unfolding apply_shift32 shift_rm32
apply_shift32_lem x shift_type amount = refl

asr32-lt : (x k : ℕ) → asr32 x k < 2 ^ 32
asr32-lt x k = ground (arith, div-le_self x (2 ^ k))

-- A shifted 32-bit operand has 32 bits.
shift_rm32-lt : (x shift_type amount : ℕ) → x < 2 ^ 32 → shift_rm32 x shift_type amount < 2 ^ 32
unfolding shift_rm32
shift_rm32-lt x shift_type amount h = ground (
  arith,
  asr32-lt x amount,
  div-le_self x (2 ^ amount),
  bit_or-lt 32 (shr x amount) (shl32 x ((32 + 256 - amount) % 256)),
)

pub shift_rm-wide :
    (i : Instruction) (rm : ℕ)
    → i.format ≡ Format.dp_reg
    → i.is_64bit ≡ true
    → shift_rm i rm ≡ apply_shift64 rm i.shift_type i.shift_amount
unfolding shift_rm
shift_rm-wide i rm h w = rw (h, w, apply_shift64_lem rm i.shift_type i.shift_amount) (ground arith)

pub shift_rm-narrow :
    (i : Instruction) (rm : ℕ)
    → i.format ≡ Format.dp_reg
    → i.is_64bit ≡ false
    → u32 (shift_rm i rm) ≡ apply_shift32 (u32 rm) i.shift_type i.shift_amount
unfolding shift_rm
shift_rm-narrow i rm h w =
    rw (h, w, apply_shift32_lem (u32 rm) i.shift_type i.shift_amount)
      (ground (arith, shift_rm32-lt (u32 rm) i.shift_type i.shift_amount))

memory-idle :
    (e : ExMem) (m : Memory)
    → e.mem_read ≡ false
    → e.mem_write ≡ false
    → memory_access e m ≡ (no_data, m)
unfolding memory_access
memory-idle e m h k = ground arith

writeback-value :
    (w : MemWb) (i : Instruction) (r : RegFile)
    → w.valid ≡ true
    → w.inst ≡ some i
    → i.index_mode ≡ IndexMode.index_none
    → w.mem_to_reg ≡ false
    → (writeback_slot w r).0 ≡ (if w.reg_write then write_reg w.rd w.alu_result r else r)
unfolding writeback_slot perform_base_writeback write_reg
writeback-value w i r h j x l = rw (j, x, h, l) (ground arith)

-- The destination 31 is no destination.
write-is_reg_write_inst :
    (i : Instruction) (value : ℕ) (r : RegFile)
    → is_linking i.op ≡ false
    → (if is_reg_write_inst i then write_reg i.rd value r else r)
      ≡ (if writes_a_register i.op then write_reg i.rd value r else r)
unfolding is_reg_write_inst write_reg
write-is_reg_write_inst i value r k = rw k (ground arith)

-- An instruction that accesses no memory writes its register and nothing else.
pub alone-no_memory :
    (i : Instruction) (pc : ℕ) (r : RegFile) (m : Memory)
    → is_load_op i.op ≡ false
    → is_store_op i.op ≡ false
    → is_linking i.op ≡ false
    → i.index_mode ≡ IndexMode.index_none
    → alone i pc r m ≡ (
        let idex = latch_decode pc (decode_result i r) in
        let executed = execute idex (read_reg i.rn r) (read_reg i.rm r) r in
        (
          if writes_a_register i.op
              then write_reg i.rd executed.0.alu_result executed.1
              else executed.1,
          m,
        ))
unfolding alone decode_result execute
alone-no_memory i pc r m l s k x =
    let idex = latch_decode pc (decode_result i r) in
    let executed = execute idex (read_reg i.rn r) (read_reg i.rm r) r in
    let exmem = latch_execute idex executed.0 executed.1 in
    ap
      (λ (a : MemoryResult × Memory). ((writeback_slot (latch_memory exmem a.0) executed.1).0, a.1))
      (memory-idle exmem m l s)
    ∙ ap (λ (x : RegFile). (x, m))
        (writeback-value (latch_memory exmem no_data) i executed.1 refl refl x l
          ∙ rw k (write-is_reg_write_inst i executed.0.alu_result executed.1 k))
