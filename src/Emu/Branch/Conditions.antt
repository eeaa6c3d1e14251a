-- ===== src/Emu/Branch/Conditions.antt =====
-- The condition codes after a comparison, against the orders of the compared numbers.
use m1sim.Base.{
  ℕ, Bool, true, false, not, ◌&&◌, ◌||◌, ◌==◌, ◌≡◌, ◌<◌, ◌^◌, arith, ltb, leb, same, if◌then◌else◌,
  sub64, sub32,
}
use m1sim.Base.Int.{ℤ, pos, ◌-ℤ◌, ltb_ℤ, leb_ℤ, signed64, signed32}
use m1sim.Emu.RegFile.{RegFile}
use m1sim.Emu.Alu.{set_sub_flags64, set_sub_flags32}
use m1sim.Emu.Alu.Flags.{overflows, negative, set_sub_flags64_lem, set_sub_flags32_lem}
use m1sim.Emu.Branch.{check_condition}

-- What a condition code says of the operands of a comparison, for a reading of patterns as
-- integers, half the modulus, and the wrapped difference.
abbrev pub relation : (ℕ → ℤ) → ℕ → ℕ → ℕ → ℕ → ℕ → Bool
relation signed half diff cond a b =
    if cond == 0b0000
    then a == b
    else if cond == 0b0001
    then not (a == b)
    else if cond == 0b0010
    then leb b a
    else if cond == 0b0011
    then ltb a b
    else if cond == 0b0100
    then negative (signed diff)
    else if cond == 0b0101
    then leb_ℤ (pos 0) (signed diff)
    else if cond == 0b0110
    then overflows half (signed a -ℤ signed b)
    else if cond == 0b0111
    then not (overflows half (signed a -ℤ signed b))
    else if cond == 0b1000
    then ltb b a
    else if cond == 0b1001
    then leb a b
    else if cond == 0b1010
    then leb_ℤ (signed b) (signed a)
    else if cond == 0b1011
    then ltb_ℤ (signed a) (signed b)
    else if cond == 0b1100
    then ltb_ℤ (signed b) (signed a)
    else if cond == 0b1101
    then leb_ℤ (signed a) (signed b)
    else if cond == 0b1110 || cond == 0b1111
    then true
    else false

-- N = V after a comparison.
ge64 :
    (a b : ℕ)
    → a < 2 ^ 64
    → b < 2 ^ 64
    → same (negative (signed64 (sub64 a b))) (overflows (2 ^ 63) (signed64 a -ℤ signed64 b))
      ≡ leb_ℤ (signed64 b) (signed64 a)
unfolding ◌-ℤ◌
ge64 a b p q = ground arith

gt64 :
    (a b : ℕ)
    → a < 2 ^ 64
    → b < 2 ^ 64
    → not (a == b) && leb_ℤ (signed64 b) (signed64 a) ≡ ltb_ℤ (signed64 b) (signed64 a)
gt64 a b p q = ground arith

le64 :
    (a b : ℕ)
    → a < 2 ^ 64
    → b < 2 ^ 64
    → a == b || ltb_ℤ (signed64 a) (signed64 b) ≡ leb_ℤ (signed64 a) (signed64 b)
le64 a b p q = ground arith

-- N = V after a comparison.
ge32 :
    (a b : ℕ)
    → a < 2 ^ 32
    → b < 2 ^ 32
    → same (negative (signed32 (sub32 a b))) (overflows (2 ^ 31) (signed32 a -ℤ signed32 b))
      ≡ leb_ℤ (signed32 b) (signed32 a)
unfolding ◌-ℤ◌
ge32 a b p q = ground arith

gt32 :
    (a b : ℕ)
    → a < 2 ^ 32
    → b < 2 ^ 32
    → not (a == b) && leb_ℤ (signed32 b) (signed32 a) ≡ ltb_ℤ (signed32 b) (signed32 a)
gt32 a b p q = ground arith

le32 :
    (a b : ℕ)
    → a < 2 ^ 32
    → b < 2 ^ 32
    → a == b || ltb_ℤ (signed32 a) (signed32 b) ≡ leb_ℤ (signed32 a) (signed32 b)
le32 a b p q = ground arith

lt_ge : (a b : ℤ) → not (leb_ℤ b a) ≡ ltb_ℤ a b
lt_ge a b = ground arith

hi : (a b : ℕ) → leb b a && not (a == b) ≡ ltb b a
hi a b = ground arith

ls : (a b : ℕ) → ltb a b || a == b ≡ leb a b
ls a b = ground arith

lo : (a b : ℕ) → not (leb b a) ≡ ltb a b
lo a b = ground arith

pl : (z : ℤ) → not (negative z) ≡ leb_ℤ (pos 0) z
pl z = ground arith

-- For 64-bit words a and b, after the flags of the comparison a - b every condition code says what
-- its name says of a and b: EQ and NE equality, CS, CC, HI and LS their order as unsigned numbers,
-- GE, LT, GT and LE their order as two's complement numbers, MI and PL the sign of the wrapped
-- difference, VS and VC whether the difference of the signed values leaves 64 bits, AL and NV true;
-- a code from 16 on is false.
pub check_condition-set_sub_flags64 :
    (cond a b : ℕ) (r : RegFile)
    → a < 2 ^ 64
    → b < 2 ^ 64
    → check_condition cond (set_sub_flags64 a b (sub64 a b) r).pstate
      ≡ relation signed64 (2 ^ 63) (sub64 a b) cond a b
unfolding check_condition
check_condition-set_sub_flags64 cond a b r p q = rw (set_sub_flags64_lem a b r p q) (
    simp (
      ge64 a b p q,
      gt64 a b p q,
      le64 a b p q,
      lt_ge (signed64 a) (signed64 b),
      hi a b,
      ls a b,
      lo a b,
      pl (signed64 (sub64 a b)),
    ))

-- For 32-bit words a and b, after the flags of the comparison a - b every condition code says what
-- its name says of a and b: EQ and NE equality, CS, CC, HI and LS their order as unsigned numbers,
-- GE, LT, GT and LE their order as two's complement numbers, MI and PL the sign of the wrapped
-- difference, VS and VC whether the difference of the signed values leaves 32 bits, AL and NV true;
-- a code from 16 on is false.
pub check_condition-set_sub_flags32 :
    (cond a b : ℕ) (r : RegFile)
    → a < 2 ^ 32
    → b < 2 ^ 32
    → check_condition cond (set_sub_flags32 a b (sub32 a b) r).pstate
      ≡ relation signed32 (2 ^ 31) (sub32 a b) cond a b
unfolding check_condition
check_condition-set_sub_flags32 cond a b r p q = rw (set_sub_flags32_lem a b r p q) (
    simp (
      ge32 a b p q,
      gt32 a b p q,
      le32 a b p q,
      lt_ge (signed32 a) (signed32 b),
      hi a b,
      ls a b,
      lo a b,
      pl (signed32 (sub32 a b)),
    ))
