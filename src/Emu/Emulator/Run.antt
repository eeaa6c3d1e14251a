-- ===== src/Emu/Emulator/Run.antt =====
-- How long `Run` of emu/emulator.go goes on under an instruction limit.
use m1sim.Base.{
  ℕ, zero, suc, true, false, ◌+◌, ◌-◌, ◌^◌, ◌<◌, ◌≤◌, ◌≡◌, ◌≢◌, ◌∙◌, none, some, none-ne-some,
  some-injective, sym, subst, refl, arith, u64, ap, inl, inr, Bool-cases, Option-cases,
}
use m1sim.Insts.{Instruction}
use m1sim.Insts.Decoder.{decode}
use m1sim.Emu.Memory.{read32}
use m1sim.Emu.Simd.{FloatOps}
use m1sim.Emu.Emulator.{
  Machine, SyscallHandler, max_instructions_reached, failed, minus_one, limit_reached,
  execute_format, execute, execute_svc, step, outcome, run,
}

module _ {S : Type 0} (handle : SyscallHandler S) (floats : FloatOps) where
  execute_format-count :
      (i : Instruction) (m : Machine S)
      → (execute_format handle floats i m).0.instruction_count ≡ m.instruction_count
  unfolding execute_format
  execute_format-count i m = ground arith

  execute-count :
      (i : Instruction) (m : Machine S)
      → (execute handle floats i m).0.instruction_count ≡ m.instruction_count
  unfolding execute execute_svc
  execute-count i m = ground (arith, execute_format-count i m)

  execute_format-max :
      (i : Instruction) (m : Machine S)
      → (execute_format handle floats i m).0.max_instructions ≡ m.max_instructions
  unfolding execute_format
  execute_format-max i m = ground arith

  execute-max :
      (i : Instruction) (m : Machine S)
      → (execute handle floats i m).0.max_instructions ≡ m.max_instructions
  unfolding execute execute_svc
  execute-max i m = ground (arith, execute_format-max i m)

  step-limit :
      (m : Machine S)
      → limit_reached m ≡ true
      → step handle floats m ≡ (m, failed max_instructions_reached)
  unfolding step
  step-limit m h = rw h refl

  step-count :
      (m : Machine S)
      → limit_reached m ≡ false
      → (step handle floats m).0.instruction_count ≡ u64 (m.instruction_count + 1)
  unfolding step
  step-count m h = rw h (ap (λ (n : ℕ). u64 (n + 1)) (execute-count _ m))

  pub step-max : (m : Machine S) → (step handle floats m).0.max_instructions ≡ m.max_instructions
  unfolding step
  step-max m = ground (arith, execute-max (decode (read32 m.regs.pc m.mem)) m)

  outcome-limit : outcome (failed max_instructions_reached) ≡ some minus_one
  unfolding outcome
  outcome-limit = refl

  run_stop :
      (fuel code : ℕ) (m : Machine S)
      → outcome (step handle floats m).1 ≡ some code
      → run handle floats (suc fuel) m ≡ some (code, (step handle floats m).0)
  unfolding run step
  run_stop fuel code m h = rw (run, h) refl

  run_go :
      (fuel : ℕ) (m : Machine S)
      → outcome (step handle floats m).1 ≡ none
      → run handle floats (suc fuel) m ≡ run handle floats fuel (step handle floats m).0
  unfolding run
  run_go fuel m h = rw (run, h) refl

  run_limit :
      (fuel : ℕ) (m : Machine S)
      → limit_reached m ≡ true
      → run handle floats (suc fuel) m ≡ some (minus_one, m)
  run_limit fuel m h =
      let at = step-limit m h in
      run_stop fuel minus_one m (ap (λ r. outcome r.1) at ∙ outcome-limit)
      ∙ ap (λ r. some (minus_one, r.0)) at

  below_limit :
      (m : Machine S)
      → 0 < m.max_instructions
      → limit_reached m ≡ false
      → m.instruction_count < m.max_instructions
  below_limit m p h = ground arith

  -- With an instruction limit above 0 and below 2 ^ 64, `Run` ends: more fuel than the instructions
  -- left up to the limit is enough, whatever the program, the syscall handler and the float
  -- operations do.
  pub run-total :
      (fuel : ℕ) (m : Machine S)
      → 0 < m.max_instructions
      → m.max_instructions < 2 ^ 64
      → m.max_instructions - m.instruction_count < fuel
      → run handle floats fuel m ≢ none
  run-total zero m p q h = absurd (omega arith)
  run-total (suc fuel) m p q h = elim (Bool-cases (limit_reached m)) [
    | inl at ↦ rw (run_limit fuel m at) (λ e. none-ne-some _ (sym e))
    | inr below ↦ elim (Option-cases (outcome (step handle floats m).1)) [
      | inl go ↦
          let m' = (step handle floats m).0 in
          let max = step-max m in
          let count = step-count m below in
          let room = below_limit m p below in
          rw (run_go fuel m go) (run-total fuel m' (omega arith) (omega arith) (omega arith))
      | inr (code, stop) ↦ rw (run_stop fuel code m stop) (λ e. none-ne-some _ (sym e))
    ]
  ]

  -- With an instruction limit above 0 and below 2 ^ 64 that is not passed at the start, the count
  -- is not above the limit where `Run` ends.
  pub run-count :
      (fuel code : ℕ) (m m' : Machine S)
      → 0 < m.max_instructions
      → m.max_instructions < 2 ^ 64
      → m.instruction_count ≤ m.max_instructions
      → run handle floats fuel m ≡ some (code, m')
      → m'.instruction_count ≤ m.max_instructions
  unfolding run
  run-count zero code m m' p q h e = absurd (none-ne-some _ e)
  run-count (suc fuel) code m m' p q q' e = elim (Bool-cases (limit_reached m)) [
    | inl at ↦
        subst (λ (n : Machine S). n.instruction_count ≤ m.max_instructions)
          (ap (λ r. r.1) (some-injective _ _ (sym (run_limit fuel m at) ∙ e))) q'
    | inr below ↦ elim (Option-cases (outcome (step handle floats m).1)) [
      | inl go ↦
          let max = step-max m in
          let count = step-count m below in
          let room = below_limit m p below in
          let rest =
            run-count fuel code (step handle floats m).0 m' (omega arith) (omega arith)
              (omega arith) (sym (run_go fuel m go) ∙ e) in
          omega arith
      | inr (c, stop) ↦
          let count = step-count m below in
          let room = below_limit m p below in
          subst (λ (n : Machine S). n.instruction_count ≤ m.max_instructions)
            (ap (λ r. r.1) (some-injective _ _ (sym (run_stop fuel c m stop) ∙ e))) (omega arith)
    ]
  ]
