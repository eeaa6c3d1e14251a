-- ===== src/Timing/Stages/Alone/Operations.antt =====
-- The operations of the execute stage on shifted registers, against the handlers of the emulator.
use m1sim.Base
use m1sim.Base.{ℕ, Bool, true, false, ◌≡◌, ◌∙◌, arith, refl, if◌then◌else◌, u32}
use m1sim.Insts.{Op, Format, Instruction}
use m1sim.Emu.RegFile.{RegFile, Pstate, read_reg, write_reg, no_flags}
use m1sim.Emu.Alu.{set_add_flags64, set_add_flags32, set_sub_flags64, set_sub_flags32}
use m1sim.Emu.Exec.DataReg.{
  execute_dp_reg, apply_shift64, apply_shift32, dp_reg_add64, dp_reg_add32, dp_reg_sub64,
  dp_reg_sub32, dp_reg_and64, dp_reg_and32, dp_reg_orr64, dp_reg_orr32, dp_reg_eor64, dp_reg_eor32,
  dp_reg_bic64, dp_reg_bic32, dp_reg_orn64, dp_reg_orn32, dp_reg_eon64, dp_reg_eon32,
}
use m1sim.Timing.Registers.{IdEx}
use m1sim.Timing.Stages.Arithmetic.{
  compute_add_flags, compute_sub_flags_of, execute_add, execute_sub, execute_and, execute_orr,
  execute_eor, execute_bic, execute_orn, execute_eon,
}
use m1sim.Timing.Stages.Execute.{ExecuteResult, execute_op, with_flags}

abbrev pub finish : Instruction → ExecuteResult × RegFile → RegFile
finish i e = write_reg i.rd e.0.alu_result e.1

-- The flags may be set before the register is written or after it.
with_flags_lem :
    (i : Instruction) (f : Bool) (value : ℕ) (p : Pstate) (r : RegFile)
    → finish i (with_flags f value p r)
      ≡ (let w = write_reg i.rd value r in if f then record w { pstate = p } else w)
unfolding with_flags write_reg
with_flags_lem i f value p r = ground arith

u32-add32 : (a b : ℕ) → u32 (Base.add32 a b) ≡ Base.add32 a b
u32-add32 a b = omega arith

u32-sub32 : (a b : ℕ) → u32 (Base.sub32 a b) ≡ Base.sub32 a b
u32-sub32 a b = omega arith

-- The operations at 64 bits, for the shifted operand rm.
module _ (idex : IdEx) (i : Instruction) (rm : ℕ) (r : RegFile) (h : i.format ≡ Format.dp_reg)
    (w : i.is_64bit ≡ true)
    (e : rm ≡ apply_shift64 (read_reg i.rm r) i.shift_type i.shift_amount) where
  abbrev Same64 : Type 0
  Same64 = finish i (execute_op idex i (read_reg i.rn r) rm false no_flags r) ≡ execute_dp_reg i r

  pub add64_lem : i.op ≡ Op.add → Same64
  unfolding execute_op execute_dp_reg execute_add compute_add_flags dp_reg_add64 set_add_flags64
  add64_lem o = rw (o, h, w, e) (with_flags_lem i _ _ _ r)

  pub sub64_lem : i.op ≡ Op.sub → Same64
  unfolding execute_op execute_dp_reg execute_sub compute_sub_flags_of dp_reg_sub64 set_sub_flags64
  sub64_lem o = rw (o, h, w, e) (with_flags_lem i _ _ _ r)

  pub and64_lem : i.op ≡ Op.and → i.set_flags ≡ false → Same64
  unfolding execute_op execute_dp_reg execute_and dp_reg_and64
  and64_lem o f = rw (o, w, f, e) refl

  pub orr64_lem : i.op ≡ Op.orr → Same64
  unfolding execute_op execute_dp_reg execute_orr dp_reg_orr64
  orr64_lem o = rw (o, w, e) refl

  pub eor64_lem : i.op ≡ Op.eor → Same64
  unfolding execute_op execute_dp_reg execute_eor dp_reg_eor64
  eor64_lem o = rw (o, w, e) refl

  pub bic64_lem : i.op ≡ Op.bic → i.set_flags ≡ false → Same64
  unfolding execute_op execute_dp_reg execute_bic dp_reg_bic64
  bic64_lem o f = rw (o, w, f, e) refl

  pub orn64_lem : i.op ≡ Op.orn → Same64
  unfolding execute_op execute_dp_reg execute_orn dp_reg_orn64
  orn64_lem o = rw (o, w, e) refl

  pub eon64_lem : i.op ≡ Op.eon → Same64
  unfolding execute_op execute_dp_reg execute_eon dp_reg_eon64
  eon64_lem o = rw (o, w, e) refl

-- The operations at 32 bits, for the shifted operand rm.
module _ (idex : IdEx) (i : Instruction) (rm : ℕ) (r : RegFile) (h : i.format ≡ Format.dp_reg)
    (w : i.is_64bit ≡ false)
    (e : u32 rm ≡ apply_shift32 (u32 (read_reg i.rm r)) i.shift_type i.shift_amount) where
  abbrev Same32 : Type 0
  Same32 = finish i (execute_op idex i (read_reg i.rn r) rm false no_flags r) ≡ execute_dp_reg i r

  pub add32_lem : i.op ≡ Op.add → Same32
  unfolding execute_op execute_dp_reg execute_add compute_add_flags dp_reg_add32 set_add_flags32
  add32_lem o =
      rw
        (
          o,
          h,
          w,
          e,
          u32-add32 (u32 (read_reg i.rn r))
              (apply_shift32 (u32 (read_reg i.rm r)) i.shift_type i.shift_amount),
        )
        (with_flags_lem i _ _ _ r)

  pub sub32_lem : i.op ≡ Op.sub → Same32
  unfolding execute_op execute_dp_reg execute_sub compute_sub_flags_of dp_reg_sub32 set_sub_flags32
  sub32_lem o =
      rw
        (
          o,
          h,
          w,
          e,
          u32-sub32 (u32 (read_reg i.rn r))
              (apply_shift32 (u32 (read_reg i.rm r)) i.shift_type i.shift_amount),
        )
        (with_flags_lem i _ _ _ r)

  pub and32_lem : i.op ≡ Op.and → i.set_flags ≡ false → Same32
  unfolding execute_op execute_dp_reg execute_and dp_reg_and32
  and32_lem o f = rw (o, w, f, e) refl

  pub orr32_lem : i.op ≡ Op.orr → Same32
  unfolding execute_op execute_dp_reg execute_orr dp_reg_orr32
  orr32_lem o = rw (o, w, e) refl

  pub eor32_lem : i.op ≡ Op.eor → Same32
  unfolding execute_op execute_dp_reg execute_eor dp_reg_eor32
  eor32_lem o = rw (o, w, e) refl

  pub bic32_lem : i.op ≡ Op.bic → i.set_flags ≡ false → Same32
  unfolding execute_op execute_dp_reg execute_bic dp_reg_bic32
  bic32_lem o f = rw (o, w, f, e) refl

  pub orn32_lem : i.op ≡ Op.orn → Same32
  unfolding execute_op execute_dp_reg execute_orn dp_reg_orn32
  orn32_lem o = rw (o, w, e) refl

  pub eon32_lem : i.op ≡ Op.eon → Same32
  unfolding execute_op execute_dp_reg execute_eon dp_reg_eon32
  eon32_lem o = rw (o, w, e) refl
