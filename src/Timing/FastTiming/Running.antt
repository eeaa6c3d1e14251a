-- ===== src/Timing/FastTiming/Running.antt =====
-- timing/pipeline/fast_timing.go: how long `Run` goes on under an instruction limit.
use m1sim.Base.{
  ℕ, zero, suc, Bool, true, false, ◌+◌, ◌-◌, ◌^◌, ◌<◌, ◌≤◌, ◌≡◌, ◌⊎◌, if◌then◌else◌, Option, some,
  inl, inr, refl, sym, ap, subst, ◌∙◌, add64, Bool-cases, arith,
}
use m1sim.Insts.{Instruction}
use m1sim.Insts.Decoder.{decode}
use m1sim.Emu.Memory.{read32}
use m1sim.Emu.Emulator.{SyscallHandler}
use m1sim.Timing.Latency.{TimingConfig}
use m1sim.Timing.FastTiming.State.{
  at_limit, FastTiming, complete, execute_stp, execute_ldp, execute_ccmp, execute_ldrb,
  execute_strb, execute_ldrh, execute_strh, execute_ldrsw, is_unknown,
}
use m1sim.Timing.FastTiming.{handle_syscall, execute_instruction, tick, run_fast}

module _ {S : Type 0} (handler : Option (SyscallHandler S)) (config : TimingConfig) where
  -- What no instruction changes.
  abbrev SameCounts : FastTiming S → FastTiming S → Type 0
  SameCounts ft' ft =
      (ft'.instr_count ≡ ft.instr_count) × (ft'.max_instructions ≡ ft.max_instructions)

  execute_instruction-counts :
      (i : Instruction) (pc : ℕ) (ft : FastTiming S)
      → SameCounts (execute_instruction handler config i pc ft) ft
  unfolding execute_instruction complete execute_stp execute_ldp execute_ccmp handle_syscall
      execute_ldrb execute_strb execute_ldrh execute_strh execute_ldrsw
  execute_instruction-counts i pc ft = ground arith

  abbrev executed : FastTiming S → FastTiming S
  executed ft =
      execute_instruction handler config (decode (read32 ft.pc ft.mem)) ft.pc
        (record ft { cycle_count = add64 ft.cycle_count 1 })

  last_branch :
      (a b c : Bool) (w x y z : FastTiming S)
      → a ≡ false
      → b ≡ false
      → c ≡ false
      → (if a then w else if b then x else if c then y else z) ≡ z
  last_branch a b c w x y z p q r = rw (p, q, r) refl

  tick_known :
      (ft : FastTiming S)
      → ft.halted ≡ false
      → at_limit ft ≡ false
      → is_unknown (decode (read32 ft.pc ft.mem)).op ≡ false
      → tick handler config ft
        ≡ record (executed ft) { instr_count = add64 (executed ft).instr_count 1 }
  unfolding tick
  tick_known ft h l u = last_branch ft.halted (at_limit ft) _ _ _ _ _ h l u

  -- A tick before the limit: it halts, or counts one instruction.
  tick_counts :
      (ft : FastTiming S)
      → ft.halted ≡ false
      → at_limit ft ≡ false
      → ((tick handler config ft).max_instructions ≡ ft.max_instructions)
        × ((((tick handler config ft).halted ≡ true)
              × ((tick handler config ft).instr_count ≡ ft.instr_count))
            ⊎ ((tick handler config ft).instr_count ≡ add64 ft.instr_count 1))
  unfolding tick
  tick_counts ft h l =
      let (count, max) =
        execute_instruction-counts (decode (read32 ft.pc ft.mem)) ft.pc
          (record ft { cycle_count = add64 ft.cycle_count 1 }) in
      elim (Bool-cases (is_unknown (decode (read32 ft.pc ft.mem)).op)) [
        | inl u ↦ (rw (tick, h, l, u) refl, inl (rw (tick, h, l, u) refl, rw (tick, h, l, u) refl))
        | inr u ↦
            let e = tick_known ft h l u in
            (
              ap (λ (t : FastTiming S). t.max_instructions) e ∙ max,
              inr (ap (λ (t : FastTiming S). t.instr_count) e ∙ ap (λ n. add64 n 1) count),
            )
      ]

  tick_limit :
      (ft : FastTiming S)
      → ft.halted ≡ false
      → at_limit ft ≡ true
      → ((tick handler config ft).halted ≡ true)
        × ((tick handler config ft).instr_count ≡ ft.instr_count)
        × ((tick handler config ft).max_instructions ≡ ft.max_instructions)
  unfolding tick
  tick_limit ft h l = (rw (tick, h, l) refl, rw (tick, h, l) refl, rw (tick, h, l) refl)

  -- The run ends, halted, within the limit.
  abbrev pub Ends : ℕ → Option (ℕ × FastTiming S) → Type 0
  Ends max run =
      (code : ℕ) × (ft : FastTiming S) × (run ≡ some (code, ft))
      × (ft.halted ≡ true)
      × (ft.instr_count ≤ max)

  run_fast-halted :
      (fuel : ℕ) (ft : FastTiming S)
      → ft.halted ≡ true
      → run_fast handler config fuel ft ≡ some (ft.exit_code, ft)
  unfolding run_fast
  run_fast-halted zero ft h = rw (run_fast, h) refl
  run_fast-halted (suc fuel) ft h = rw (run_fast, h) refl

  run_fast-tick :
      (fuel max : ℕ) (ft : FastTiming S)
      → ft.halted ≡ false
      → Ends max (run_fast handler config fuel (tick handler config ft))
      → Ends max (run_fast handler config (suc fuel) ft)
  unfolding run_fast
  run_fast-tick fuel max ft h e =
      let q : run_fast handler config fuel (tick handler config ft)
          ≡ run_fast handler config (suc fuel) ft =
        sym (rw (run_fast, h) refl) in
      subst (Ends max) q e

  -- From a state that has not gone past its limit, which is positive and below 2 ^ 64, `Run` of the
  -- fast simulation ends: with fuel above one more than the number of instructions that the limit
  -- leaves it gives an exit code and a halted state that has counted no more instructions than the
  -- limit.
  pub run_fast_lem :
      (fuel : ℕ) (ft : FastTiming S)
      → 0 < ft.max_instructions
      → ft.max_instructions < 2 ^ 64
      → ft.instr_count ≤ ft.max_instructions
      → ft.max_instructions - ft.instr_count + 1 < fuel
      → Ends ft.max_instructions (run_fast handler config fuel ft)
  run_fast_lem zero ft p w c f = absurd (omega arith)
  run_fast_lem (suc fuel) ft p w c f = elim (Bool-cases ft.halted) [
    | inl h ↦ (ft.exit_code, ft, run_fast-halted (suc fuel) ft h, h, c)
    | inr h ↦ elim (Bool-cases (at_limit ft)) [
      | inl l ↦
          let (halted, count, max) = tick_limit ft h l in
          let t = tick handler config ft in
          run_fast-tick fuel ft.max_instructions ft h (
            t.exit_code,
            t,
            run_fast-halted fuel t halted,
            halted,
            subst (λ n. n ≤ ft.max_instructions) (sym count) c,
          )
      | inr l ↦
          let (max, next) = tick_counts ft h l in
          let t = tick handler config ft in
          let left : ft.instr_count < ft.max_instructions = ground arith in
          run_fast-tick fuel ft.max_instructions ft h (elim next [
            | inl (halted, count) ↦ (
              t.exit_code,
              t,
              run_fast-halted fuel t halted,
              halted,
              subst (λ n. n ≤ ft.max_instructions) (sym count) c,
            )
            | inr count ↦
                subst (λ n. Ends n (run_fast handler config fuel t)) max
                  (run_fast_lem fuel t (omega arith) (omega arith) (omega arith) (omega arith))
          ])
    ]
  ]
