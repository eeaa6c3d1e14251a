-- ===== src/Timing/Stages/Alone/DpReg.antt =====
-- Register-form data processing alone in the pipeline, against the emulator's handler.
use m1sim.Base.{ℕ, Bool, true, false, ◌≡◌, ◌∙◌, refl, ap, inl, inr, Bool-cases}
use m1sim.Insts.{Op, Format, IndexMode, Instruction}
use m1sim.Emu.RegFile.{RegFile, read_reg, no_flags}
use m1sim.Emu.Memory.{Memory}
use m1sim.Emu.Exec.DataReg.{execute_dp_reg}
use m1sim.Timing.Registers.{IdEx}
use m1sim.Timing.Stages.{decode_result, is_load_op, is_store_op, is_linking, writes_a_register}
use m1sim.Timing.Stages.Arithmetic.{shift_rm}
use m1sim.Timing.Stages.Execute.{execute, execute_with_flags, execute_op}
use m1sim.Timing.Stages.Alone.{alone, latch_decode}
use m1sim.Timing.Stages.Alone.Registers.{alone-no_memory, shift_rm-wide, shift_rm-narrow}
use m1sim.Timing.Stages.Alone.Operations.{
  finish, add64_lem, add32_lem, sub64_lem, sub32_lem, and64_lem, and32_lem, orr64_lem, orr32_lem,
  eor64_lem, eor32_lem, bic64_lem, bic32_lem, orn64_lem, orn32_lem, eon64_lem, eon32_lem,
}

-- The operations on a shifted register that the execute stage has, with their S bit.
pub data Supported : Op → Bool → Type 0 where
  add : {f : Bool} → Supported Op.add f
  sub : {f : Bool} → Supported Op.sub f
  and : Supported Op.and false
  bic : Supported Op.bic false
  orr : {f : Bool} → Supported Op.orr f
  orn : {f : Bool} → Supported Op.orn f
  eor : {f : Bool} → Supported Op.eor f
  eon : {f : Bool} → Supported Op.eon f

-- What is written and the flags, once the operation and the width are known.
results-wide :
    (i : Instruction) (idex : IdEx) (r : RegFile) {op : Op} {f : Bool}
    → Supported op f
    → i.op ≡ op
    → i.set_flags ≡ f
    → i.format ≡ Format.dp_reg
    → i.is_64bit ≡ true
    → finish i (execute_op idex i (read_reg i.rn r) (shift_rm i (read_reg i.rm r)) false no_flags r)
      ≡ execute_dp_reg i r
results-wide i idex r add h f k w =
    add64_lem idex i _ r k w (shift_rm-wide i (read_reg i.rm r) k w) h
results-wide i idex r sub h f k w =
    sub64_lem idex i _ r k w (shift_rm-wide i (read_reg i.rm r) k w) h
results-wide i idex r and h f k w =
    and64_lem idex i _ r k w (shift_rm-wide i (read_reg i.rm r) k w) h f
results-wide i idex r bic h f k w =
    bic64_lem idex i _ r k w (shift_rm-wide i (read_reg i.rm r) k w) h f
results-wide i idex r orr h f k w =
    orr64_lem idex i _ r k w (shift_rm-wide i (read_reg i.rm r) k w) h
results-wide i idex r orn h f k w =
    orn64_lem idex i _ r k w (shift_rm-wide i (read_reg i.rm r) k w) h
results-wide i idex r eor h f k w =
    eor64_lem idex i _ r k w (shift_rm-wide i (read_reg i.rm r) k w) h
results-wide i idex r eon h f k w =
    eon64_lem idex i _ r k w (shift_rm-wide i (read_reg i.rm r) k w) h

results-narrow :
    (i : Instruction) (idex : IdEx) (r : RegFile) {op : Op} {f : Bool}
    → Supported op f
    → i.op ≡ op
    → i.set_flags ≡ f
    → i.format ≡ Format.dp_reg
    → i.is_64bit ≡ false
    → finish i (execute_op idex i (read_reg i.rn r) (shift_rm i (read_reg i.rm r)) false no_flags r)
      ≡ execute_dp_reg i r
results-narrow i idex r add h f k w =
    add32_lem idex i _ r k w (shift_rm-narrow i (read_reg i.rm r) k w) h
results-narrow i idex r sub h f k w =
    sub32_lem idex i _ r k w (shift_rm-narrow i (read_reg i.rm r) k w) h
results-narrow i idex r and h f k w =
    and32_lem idex i _ r k w (shift_rm-narrow i (read_reg i.rm r) k w) h f
results-narrow i idex r bic h f k w =
    bic32_lem idex i _ r k w (shift_rm-narrow i (read_reg i.rm r) k w) h f
results-narrow i idex r orr h f k w =
    orr32_lem idex i _ r k w (shift_rm-narrow i (read_reg i.rm r) k w) h
results-narrow i idex r orn h f k w =
    orn32_lem idex i _ r k w (shift_rm-narrow i (read_reg i.rm r) k w) h
results-narrow i idex r eor h f k w =
    eor32_lem idex i _ r k w (shift_rm-narrow i (read_reg i.rm r) k w) h
results-narrow i idex r eon h f k w =
    eon32_lem idex i _ r k w (shift_rm-narrow i (read_reg i.rm r) k w) h

no_access :
    {op : Op} {f : Bool}
    → Supported op f
    → (is_load_op op ≡ false)
      × (is_store_op op ≡ false)
      × (is_linking op ≡ false)
      × (writes_a_register op ≡ true)
unfolding is_load_op is_store_op
no_access add = (refl, refl, refl, refl)
no_access sub = (refl, refl, refl, refl)
no_access and = (refl, refl, refl, refl)
no_access bic = (refl, refl, refl, refl)
no_access orr = (refl, refl, refl, refl)
no_access orn = (refl, refl, refl, refl)
no_access eor = (refl, refl, refl, refl)
no_access eon = (refl, refl, refl, refl)

-- Alone in the pipeline, a register-form ADD, SUB, AND, BIC, ORR, ORN, EOR or EON, of either width
-- and with a shifted operand, leaves the registers as the emulator's handler does and the memory as
-- it was: ADD and SUB also with the S bit, AND and BIC without it. The instruction has no index
-- mode, as decoded ones of the format have none.
pub alone-dp_reg :
    (i : Instruction) (pc : ℕ) (r : RegFile) (m : Memory)
    → i.format ≡ Format.dp_reg
    → i.index_mode ≡ IndexMode.index_none
    → Supported i.op i.set_flags
    → alone i pc r m ≡ (execute_dp_reg i r, m)
unfolding execute execute_with_flags decode_result
alone-dp_reg i pc r m h x s =
    let (l, t, k, w) = no_access s in
    let idex = latch_decode pc (decode_result i r) in
    alone-no_memory i pc r m l t k x
    ∙ simp w refl
    ∙ ap (λ (a : RegFile). (a, m))
        (elim (Bool-cases i.is_64bit) [
          | inl v ↦ results-wide i idex r s refl refl h v
          | inr v ↦ results-narrow i idex r s refl refl h v
        ])
