-- ===== src/Timing/Superscalar/Loads.antt =====
-- The test of `canIssueWith` behind a load, against the pipeline's test of the next instruction.
use m1sim.Base.{
  ℕ, Bool, true, false, not, ◌≡◌, ◌&&◌, ◌||◌, ◌==◌, if◌then◌else◌, some, Bool-cases, inl, inr, refl,
  ap, sym, subst, ◌∙◌, arith,
}
use m1sim.Timing.Registers.{IdEx}
use m1sim.Timing.Hazard.{
  is_ldp, rt2_of, detect_load_use_hazard_decoded, detect_load_use_hazard_ldp_rt2,
}
use m1sim.Timing.Hazard.LoadUse.{has_store_value, source_rm, uses_rm, next_uses_load}
use m1sim.Emu.RegFile.{RegFile}
use m1sim.Timing.Stages.{is_store_op, decode_stage}
use m1sim.Timing.Stages.Alone.{latch_decode}
use m1sim.Insts.{Op, Instruction}
use m1sim.Insts.Decoder.{decode}
use m1sim.Timing.Superscalar.{is_dp_reg, has_rd, reads, stores_rt2, stores_rd, reads_loaded}

-- The value register of a store counts as a source.
has_store_value-is_store_op : (op : Op) → has_store_value op ≡ true → is_store_op op ≡ true
unfolding is_store_op
has_store_value-is_store_op op h = ground arith

-- The register holds what the decode stage gives for the instruction, as each slot latches it.
pub record IsDecoded (next : Instruction) (new : IdEx) : Type 0 where
  pub inst : new.inst ≡ some next
  pub rn : new.rn ≡ next.rn
  pub rm : new.rm ≡ next.rm
  pub mem_write : new.mem_write ≡ is_store_op next.op

pub latch_decode-IsDecoded :
    (pc word : ℕ) (r : RegFile) → IsDecoded (decode word) (latch_decode pc (decode_stage word r))
unfolding decode_stage
latch_decode-IsDecoded pc word r = record { inst = refl; rn = refl; rm = refl; mem_write = refl }

-- The two registers of a load against the sources of the instruction behind it.
first_use :
    (rd rn rm value : ℕ) (dp st : Bool)
    → (rn == rd || dp && rm == rd) ≡ false
    → (st && value == rd) ≡ false
    → detect_load_use_hazard_decoded rd rn (if st then value else rm) true (dp || st) ≡ false
unfolding detect_load_use_hazard_decoded
first_use rd rn rm value dp st h k = ground arith

second_use :
    (rt2 rn rm value : ℕ) (dp st : Bool)
    → (not (rt2 == 31) && (rn == rt2 || dp && rm == rt2)) ≡ false
    → (not (rt2 == 31) && (st && value == rt2)) ≡ false
    → detect_load_use_hazard_ldp_rt2 rt2 rn (if st then value else rm) true (dp || st) ≡ false
unfolding detect_load_use_hazard_ldp_rt2
second_use rt2 rn rm value dp st h k = ground arith

unread :
    (r m ldp z r2 : Bool)
    → m ≡ true
    → ((r || (not r && m && ldp && z) && r2) && m) ≡ false
    → (r ≡ false) × (ldp ≡ true → (z && r2) ≡ false)
unread true m ldp z r2 e h = absurd (ground arith)
unread false m ldp z r2 e h = (refl, λ l. ground arith)

unsaved :
    (r m ldp z w h : Bool)
    → r ≡ false
    → m ≡ true
    → ldp ≡ true
    → ((not r && m && ldp && z) && w && h) ≡ false
    → (z && (w && h)) ≡ false
unsaved r m ldp z w h a b c e = ground arith

weaken :
    (z st w h : Bool) → (st ≡ true → w ≡ true) → (z && (w && h)) ≡ false → (z && (st && h)) ≡ false
weaken z true w h f e = subst (λ w. (z && (w && h)) ≡ false) (f refl) e
weaken true false w h f e = refl
weaken false false w h f e = refl

-- What the loop tests of an instruction behind a load, in terms of what the decoder gives.
module _ (next : Instruction) (new prev : IdEx) (i : IsDecoded next new)
    (loads : prev.mem_read ≡ true) where
  read_by : ℕ → Bool
  read_by reg = next.rn == reg || is_dp_reg (some next) && next.rm == reg

  reads-decoded : (reg : ℕ) → reads new reg ≡ read_by reg
  unfolding read_by
  reads-decoded reg = rw (i.inst, i.rn, i.rm) refl

  stored_value :
      (z : Bool) (reg : ℕ)
      → (z && (new.mem_write && has_rd reg new.inst)) ≡ false
      → (z && (has_store_value next.op && next.rd == reg)) ≡ false
  stored_value z reg h =
      weaken z (has_store_value next.op) (is_store_op next.op) (next.rd == reg)
        (has_store_value-is_store_op next.op) (sym (rw (i.inst, i.mem_write) refl) ∙ h)

  unread_pair :
      reads_loaded new prev ≡ false
      → (reads new prev.rd ≡ false)
        × (is_ldp prev.inst ≡ true
            → (not (rt2_of prev.inst == 31) && reads new (rt2_of prev.inst)) ≡ false)
  unread_pair h =
      unread (reads new prev.rd) prev.mem_read (is_ldp prev.inst) (not (rt2_of prev.inst == 31))
        (reads new (rt2_of prev.inst)) loads h

  uses_rm-decoded : uses_rm next ≡ (is_dp_reg (some next) || has_store_value next.op)
  uses_rm-decoded = ground arith

  reads_loaded-first :
      reads_loaded new prev ≡ false
      → stores_rd new prev ≡ false
      → detect_load_use_hazard_decoded prev.rd next.rn (source_rm next) true (uses_rm next) ≡ false
  unfolding read_by
  reads_loaded-first h k = rw uses_rm-decoded (
      first_use prev.rd next.rn next.rm next.rd (is_dp_reg (some next)) (has_store_value next.op)
        (sym (reads-decoded prev.rd) ∙ (unread_pair h).0) (stored_value true prev.rd k))

  reads_loaded-second :
      reads_loaded new prev ≡ false
      → stores_rt2 new prev ≡ false
      → is_ldp prev.inst ≡ true
      → detect_load_use_hazard_ldp_rt2
          (rt2_of prev.inst)
          next.rn
          (source_rm next)
          true
          (uses_rm next)
        ≡ false
  unfolding read_by
  reads_loaded-second h k l =
      let rt2 = rt2_of prev.inst in
      let z = not (rt2 == 31) in
      rw uses_rm-decoded (
        second_use rt2 next.rn next.rm next.rd (is_dp_reg (some next)) (has_store_value next.op)
          (sym (ap (λ r. z && r) (reads-decoded rt2)) ∙ (unread_pair h).1 l)
          (stored_value z rt2 (
            unsaved (reads new prev.rd) prev.mem_read (is_ldp prev.inst) z new.mem_write
              (has_rd rt2 new.inst) (unread_pair h).0 loads l k)))

  pub next_uses_load-decoded :
      reads_loaded new prev ≡ false
      → stores_rd new prev ≡ false
      → stores_rt2 new prev ≡ false
      → next_uses_load prev next ≡ false
  unfolding next_uses_load
  next_uses_load-decoded h k l = elim (Bool-cases (is_ldp prev.inst)) [
    | inl p ↦ ground (arith, reads_loaded-first h k, reads_loaded-second h l p)
    | inr p ↦ ground (arith, reads_loaded-first h k)
  ]
