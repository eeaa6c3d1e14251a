-- ===== src/Timing/FastTiming/Conditions.antt =====
-- timing/pipeline/fast_timing.go against emu/: the conditions and the flags.
use m1sim.Base.Bits.{bit_and-shr, bit_xor-shr}
use m1sim.Base.{
  ℕ, Bool, true, false, not, ◌<◌, ◌≡◌, ◌^◌, ◌==◌, ◌&&◌, same, leb, shr, bit_and, bit_xor, zero, suc,
  inl, inr, Bool-cases, ==→eq, ==→ne, refl, sym, ap, ap₂, ◌∙◌, subst, sub64, arith,
}
use m1sim.Emu.RegFile.{RegFile, Pstate}
use m1sim.Emu.Alu.{set_sub_flags64}
use m1sim.Emu.Branch.{check_condition}
use m1sim.Timing.FastTiming.Values.{evaluate_condition, update_flags_sub}

same-true : (b : Bool) → same b true ≡ b
same-true true = refl
same-true false = refl

same-false : (b : Bool) → same b false ≡ not b
same-false true = refl
same-false false = refl

-- A property of the numbers below n, one after the other.
abbrev AllBelow : ℕ → (ℕ → Type 0) → Type 0
AllBelow zero P = zero ≡ zero
AllBelow (suc n) P = AllBelow n P × P n

below : (n : ℕ) (P : ℕ → Type 0) → AllBelow n P → (k : ℕ) → k < n → P k
below zero P all k h = absurd (omega arith)
below (suc n) P (all, last) k h = elim (Bool-cases (k == n)) [
  | inl e ↦ subst P (sym (==→eq k n e)) last
  | inr e ↦ let d = ==→ne k n e in below n P all k (omega arith)
]

abbrev Agrees : Pstate → ℕ → Type 0
Agrees p cond = evaluate_condition cond p ≡ check_condition cond p

-- Each of the sixteen conditions means to the fast simulation what it means to the emulator's
-- branch unit.
pub evaluate_condition-check_condition :
    (cond : ℕ) (p : Pstate) → cond < 16 → evaluate_condition cond p ≡ check_condition cond p
unfolding evaluate_condition check_condition
evaluate_condition-check_condition cond p h =
    below 16 (Agrees p)
      (
        (
          (
            (
              (
                (
                  (
                    (
                      (
                        (
                          (
                            (
                              (
                                (((refl, same-true p.z), same-false p.z), same-true p.c),
                                same-false p.c,
                              ),
                              same-true p.n,
                            ),
                            same-false p.n,
                          ),
                          same-true p.v,
                        ),
                        same-false p.v,
                      ),
                      refl,
                    ),
                    refl,
                  ),
                  refl,
                ),
                refl,
              ),
              refl,
            ),
            refl,
          ),
          refl,
        ),
        refl,
      )
      cond h

-- The overflow of a subtraction, by the three signs.
abbrev OverflowAgrees : ℕ → ℕ → ℕ → Type 0
OverflowAgrees s t u = (bit_and (bit_xor s t) (bit_xor s u) == 1) ≡ (not (s == t) && t == u)

overflow_of_signs : (s t u : ℕ) → s < 2 → t < 2 → u < 2 → OverflowAgrees s t u
overflow_of_signs s t u h k l =
    below 2 (λ s. OverflowAgrees s t u)
      (
        (
          refl,
          below 2 (λ t. OverflowAgrees 0 t u)
              (
                (refl, below 2 (λ u. OverflowAgrees 0 0 u) ((refl, refl), refl) u l),
                below 2 (λ u. OverflowAgrees 0 1 u) ((refl, refl), refl) u l,
              )
              t k,
        ),
        below 2 (λ t. OverflowAgrees 1 t u)
            (
              (refl, below 2 (λ u. OverflowAgrees 1 0 u) ((refl, refl), refl) u l),
              below 2 (λ u. OverflowAgrees 1 1 u) ((refl, refl), refl) u l,
            )
            t k,
      )
      s h

overflow :
    (a b c : ℕ)
    → a < 2 ^ 64
    → b < 2 ^ 64
    → c < 2 ^ 64
    → (shr (bit_and (bit_xor a b) (bit_xor a c)) 63 == 1)
      ≡ (not (shr a 63 == shr b 63) && shr b 63 == shr c 63)
overflow a b c h k l =
    ap (λ n. n == 1)
      (bit_and-shr 63 (bit_xor a b) (bit_xor a c)
        ∙ ap₂ bit_and (bit_xor-shr 63 a b) (bit_xor-shr 63 a c))
    ∙ overflow_of_signs (shr a 63) (shr b 63) (shr c 63) (omega arith) (omega arith) (omega arith)

abbrev flags : Bool → Bool → Bool → Bool → Pstate
flags n z c v = record { n = n; z = z; c = c; v = v }

-- For 64-bit operands, the flags of a subtraction that the fast simulation computes with exclusive
-- ors are those that the emulator's ALU sets by comparing signs.
pub update_flags_sub-set_sub_flags64 :
    (op1 op2 : ℕ) (r : RegFile)
    → op1 < 2 ^ 64
    → op2 < 2 ^ 64
    → update_flags_sub op1 op2 (sub64 op1 op2) true
      ≡ (set_sub_flags64 op1 op2 (sub64 op1 op2) r).pstate
unfolding update_flags_sub set_sub_flags64
update_flags_sub-set_sub_flags64 op1 op2 r h k =
    let c = sub64 op1 op2 in
    ap (λ v. flags (shr c 63 == 1) (c == 0) (leb op2 op1) v) (overflow op1 op2 c h k (omega arith))
