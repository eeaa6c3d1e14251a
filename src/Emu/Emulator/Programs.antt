-- ===== src/Emu/Emulator/Programs.antt =====
-- Short programs in memory: what `Step` makes of their words.
use m1sim.Base.{
  ℕ, Bool, true, ◌==◌, ◌^◌, ◌<◌, ◌≡◌, ◌∙◌, refl, ap, ap₂, arith, add64, sub64, if◌then◌else◌,
}
use m1sim.Base.Int.{signed64}
use m1sim.Insts.{Op, Format, Instruction, blank}
use m1sim.Insts.Decoder.{decode}
use m1sim.Insts.Encoding.{add_sub_imm_word, branch_word, branch_cond_word}
use m1sim.Insts.Encoding.Signs.{Reaches}
use m1sim.Insts.Encoding.Immediates.{decode-add_sub_imm_word}
use m1sim.Insts.Encoding.Jumps.{decode-branch_word, decode-branch_cond_word}
use m1sim.Emu.RegFile.{RegFile, read_reg_or_sp, write_reg}
use m1sim.Emu.Memory.{Memory, read32}
use m1sim.Emu.Alu.{sub64_imm, set_sub_flags64}
use m1sim.Emu.Branch.{b, bl, check_condition}
use m1sim.Emu.Branch.Conditions.{relation, check_condition-set_sub_flags64}
use m1sim.Emu.Simd.{FloatOps}
use m1sim.Emu.Exec.DataReg.{execute_dp_imm}
use m1sim.Emu.Exec.Control.{execute_branch, execute_branch_cond, jump_if}
use m1sim.Emu.Emulator.{Machine, SyscallHandler, execute_format, execute, step}
use m1sim.Emu.Emulator.Run.{step-max}

-- CMP Xn, #imm as it is decoded.
abbrev cmp_imm : ℕ → ℕ → Instruction
cmp_imm rn imm = record blank {
  op = Op.sub;
  format = Format.dp_imm;
  is_64bit = true;
  set_flags = true;
  rd = 31;
  rn = rn;
  imm = imm;
}

abbrev b_cond_inst : ℕ → ℕ → ℕ → Instruction
b_cond_inst cond offset imm = record blank {
  op = Op.b_cond;
  format = Format.branch_cond;
  branch_offset = offset;
  imm = imm;
  cond = cond;
}

abbrev branch_inst : ℕ → ℕ → ℕ → Instruction
branch_inst op offset imm = record blank {
  op = if op == 0 then Op.b else Op.bl;
  format = Format.branch;
  branch_offset = offset;
  imm = imm;
}

module _ {S : Type 0} (handle : SyscallHandler S) (floats : FloatOps) where
  -- Without a limit a step executes the word at the PC.
  step-regs :
      (i : Instruction) (m : Machine S)
      → m.max_instructions ≡ 0
      → decode (read32 m.regs.pc m.mem) ≡ i
      → (step handle floats m).0.regs ≡ (execute handle floats i m).0.regs
  unfolding step
  step-regs i m h e = rw (e, h) refl

  step-mem :
      (i : Instruction) (m : Machine S)
      → m.max_instructions ≡ 0
      → decode (read32 m.regs.pc m.mem) ≡ i
      → (step handle floats m).0.mem ≡ (execute handle floats i m).0.mem
  unfolding step
  step-mem i m h e = rw (e, h) refl

  execute-cmp_imm :
      (rn imm : ℕ) (m : Machine S)
      → (execute handle floats (cmp_imm rn imm) m).0.regs ≡ (
          let r = m.regs in
          let v = read_reg_or_sp rn r in
          record r { pc = add64 r.pc 4; pstate = (set_sub_flags64 v imm (sub64 v imm) r).pstate })
  unfolding execute execute_format execute_dp_imm sub64_imm write_reg set_sub_flags64
  execute-cmp_imm rn imm m = refl

  execute-cmp_imm_mem :
      (rn imm : ℕ) (m : Machine S) → (execute handle floats (cmp_imm rn imm) m).0.mem ≡ m.mem
  unfolding execute execute_format
  execute-cmp_imm_mem rn imm m = refl

  execute-b_cond :
      (cond offset imm : ℕ) (m : Machine S)
      → (execute handle floats (b_cond_inst cond offset imm) m).0.regs.pc
        ≡ (if check_condition cond m.regs.pstate then add64 m.regs.pc offset else add64 m.regs.pc 4)
  unfolding execute execute_format execute_branch_cond jump_if
  execute-b_cond cond offset imm m = refl

  -- With no instruction limit, where memory holds at the PC the word of CMP with an immediate (on
  -- Xn, or on SP for n = 31) and four bytes on the word of a B.cond, two steps take the branch
  -- exactly when the condition, read as the order of the register value and the immediate that it
  -- names, holds: the PC is then the branch's address plus its offset, and else the address after
  -- the branch. The register value is below 2 ^ 64, and the offset is a multiple of 4 that 19
  -- signed bits of words reach.
  pub step-step-cmp_b_cond :
      (rn imm cond offset : ℕ) (m : Machine S)
      → m.max_instructions ≡ 0
      → rn < 32
      → imm < 2 ^ 12
      → cond < 16
      → Reaches 19 offset
      → read_reg_or_sp rn m.regs < 2 ^ 64
      → read32 m.regs.pc m.mem ≡ add_sub_imm_word 1 1 1 0 imm rn 31
      → read32 (add64 m.regs.pc 4) m.mem ≡ branch_cond_word cond offset
      → let v = read_reg_or_sp rn m.regs in
        let next = add64 m.regs.pc 4 in
        (step handle floats (step handle floats m).0).0.regs.pc ≡ (
          if relation signed64 (2 ^ 63) (sub64 v imm) cond v imm
          then add64 next offset
          else add64 next 4)
  step-step-cmp_b_cond rn imm cond offset m h p q s t u w w' =
      let first : decode (read32 m.regs.pc m.mem) ≡ cmp_imm rn imm =
        ap decode w
        ∙ decode-add_sub_imm_word 1 1 1 0 imm rn 31 (omega arith) (omega arith) (omega arith)
            (omega arith) q p (omega arith) in
      let m' = (step handle floats m).0 in
      let v = read_reg_or_sp rn m.regs in
      let next = add64 m.regs.pc 4 in
      let flags = (set_sub_flags64 v imm (sub64 v imm) m.regs).pstate in
      let compared : m'.regs ≡ record m.regs { pc = next; pstate = flags } =
        step-regs _ m h first ∙ execute-cmp_imm rn imm m in
      let kept : m'.mem ≡ m.mem = step-mem _ m h first ∙ execute-cmp_imm_mem rn imm m in
      let second =
        ap₂ (λ (r : RegFile) (mem : Memory). decode (read32 r.pc mem)) compared kept
        ∙ ap decode w'
        ∙ decode-branch_cond_word cond offset s t in
      ap (λ (r : RegFile). r.pc) (step-regs _ m' (step-max handle floats m ∙ h) second)
      ∙ execute-b_cond cond offset _ m'
      ∙ ap
          (λ (r : RegFile).
            if check_condition cond r.pstate then add64 r.pc offset else add64 r.pc 4)
          compared
      ∙ ap (λ (c : Bool). if c then add64 next offset else add64 next 4)
          (check_condition-set_sub_flags64 cond v imm m.regs u (omega arith))

  execute-branch :
      (op offset imm : ℕ) (m : Machine S)
      → let r = (execute handle floats (branch_inst op offset imm) m).0.regs in
        (r.pc ≡ add64 m.regs.pc offset)
        × (r.x 30 ≡ (if op == 0 then m.regs.x 30 else add64 m.regs.pc 4))
  unfolding execute execute_format execute_branch b bl write_reg
  execute-branch op offset imm m = ground arith

  -- With no instruction limit, where memory holds at the PC the word of B or BL for a byte offset,
  -- a multiple of 4 that 26 signed bits of words reach, a step adds the offset to the PC, and BL
  -- leaves the address of the next instruction in X30 while B leaves X30 as it was.
  pub step-branch_word :
      (op offset : ℕ) (m : Machine S)
      → m.max_instructions ≡ 0
      → op < 2
      → Reaches 26 offset
      → read32 m.regs.pc m.mem ≡ branch_word op offset
      → let r = (step handle floats m).0.regs in
        (r.pc ≡ add64 m.regs.pc offset)
        × (r.x 30 ≡ (if op == 0 then m.regs.x 30 else add64 m.regs.pc 4))
  step-branch_word op offset m h p t w =
      rw (step-regs _ m h (ap decode w ∙ decode-branch_word op offset p t))
        (execute-branch op offset _ m)
