-- ===== src/Emu/Exec/Arith/Compare.antt =====
-- The flags of the conditional compares, against those of the ALU.
use m1sim.Base.{
  ℕ, Bool, true, false, not, ◌&&◌, ◌==◌, ◌^◌, ◌/◌, ◌-◌, ◌<◌, ◌≡◌, refl, arith, shr, bit_and,
  bit_xor, not64, not32, add64, sub64, add32, sub32,
}
use m1sim.Base.Bits.{bit_and-shr, bit_xor-shr, bit_xor-lt}
use m1sim.Emu.RegFile.{RegFile}
use m1sim.Emu.Alu.{set_add_flags64, set_sub_flags64, set_add_flags32, set_sub_flags32}
use m1sim.Emu.Alu.Flags.{Pstate-eq}
use m1sim.Emu.Exec.Arith.{ccmp_flags64, ccmn_flags64, ccmp_flags32, ccmn_flags32}

abbrev bit : Bool → ℕ
bit true = 1
bit false = 0

bit-eq : (x : ℕ) → x < 2 → x ≡ bit (x == 1)
bit-eq x h = ground arith

-- What holds of the two bits 0 and 1 in each of three places holds of every three numbers below 2.
three_bits :
    (P : ℕ → ℕ → ℕ → Type 0)
    → ((x y z : Bool) → P (bit x) (bit y) (bit z))
    → (x y z : ℕ) → x < 2
    → y < 2
    → z < 2
    → P x y z
three_bits P h x y z p q r = rw (bit-eq x p, bit-eq y q, bit-eq z r) (h (x == 1) (y == 1) (z == 1))

sub_bits :
    (x y z : Bool)
    → bit_and (bit_xor (bit x) (bit y)) (bit_xor (bit x) (bit z)) == 1
      ≡ not (bit x == bit y) && bit y == bit z
sub_bits true true true = refl
sub_bits true true false = refl
sub_bits true false true = refl
sub_bits true false false = refl
sub_bits false true true = refl
sub_bits false true false = refl
sub_bits false false true = refl
sub_bits false false false = refl

add_bits :
    (x y z : Bool)
    → bit_and (1 - bit_xor (bit x) (bit y)) (bit_xor (bit x) (bit z)) == 1
      ≡ bit x == bit y && not (bit x == bit z)
add_bits true true true = refl
add_bits true true false = refl
add_bits true false true = refl
add_bits true false false = refl
add_bits false true true = refl
add_bits false true false = refl
add_bits false false true = refl
add_bits false false false = refl

-- The overflow formulas: at bit k of numbers with k + 1 bits they are formulas on single bits.
sub_overflow :
    (k a b d : ℕ)
    → a / 2 ^ k < 2
    → b / 2 ^ k < 2
    → d / 2 ^ k < 2
    → shr (bit_and (bit_xor a b) (bit_xor a d)) k == 1
      ≡ not (shr a k == shr b k) && shr b k == shr d k
sub_overflow k a b d p q r =
    rw (bit_and-shr k (bit_xor a b) (bit_xor a d), bit_xor-shr k a b, bit_xor-shr k a d)
      (three_bits (λ x y z. bit_and (bit_xor x y) (bit_xor x z) == 1 ≡ not (x == y) && y == z)
        sub_bits (a / 2 ^ k) (b / 2 ^ k) (d / 2 ^ k) p q r)

add_overflow :
    (k a b d inverted : ℕ)
    → inverted / 2 ^ k ≡ 1 - bit_xor a b / 2 ^ k
    → a / 2 ^ k < 2
    → b / 2 ^ k < 2
    → d / 2 ^ k < 2
    → shr (bit_and inverted (bit_xor a d)) k == 1 ≡ shr a k == shr b k && not (shr a k == shr d k)
add_overflow k a b d inverted e p q r =
    rw (bit_and-shr k inverted (bit_xor a d), e, bit_xor-shr k a b, bit_xor-shr k a d)
      (three_bits (λ x y z. bit_and (1 - bit_xor x y) (bit_xor x z) == 1 ≡ x == y && not (x == z))
        add_bits (a / 2 ^ k) (b / 2 ^ k) (d / 2 ^ k) p q r)

-- For 64-bit operands the flags that CCMP computes by masking exclusive ors are the flags that the
-- ALU sets for the subtraction by comparing sign bits.
pub ccmp_flags64-set_sub_flags64 :
    (a b : ℕ) (r : RegFile)
    → a < 2 ^ 64
    → b < 2 ^ 64
    → ccmp_flags64 a b ≡ (set_sub_flags64 a b (sub64 a b) r).pstate
unfolding ccmp_flags64 set_sub_flags64
ccmp_flags64-set_sub_flags64 a b r p q =
    Pstate-eq refl refl refl
      (sub_overflow 63 a b (sub64 a b) (omega arith) (omega arith) (omega arith))

-- For 32-bit operands the flags that CCMP computes by masking exclusive ors are the flags that the
-- ALU sets for the subtraction by comparing sign bits.
pub ccmp_flags32-set_sub_flags32 :
    (a b : ℕ) (r : RegFile)
    → a < 2 ^ 32
    → b < 2 ^ 32
    → ccmp_flags32 a b ≡ (set_sub_flags32 a b (sub32 a b) r).pstate
unfolding ccmp_flags32 set_sub_flags32
ccmp_flags32-set_sub_flags32 a b r p q =
    Pstate-eq refl refl refl
      (sub_overflow 31 a b (sub32 a b) (omega arith) (omega arith) (omega arith))

-- For 64-bit operands the flags that CCMN computes by masking exclusive ors are the flags that the
-- ALU sets for the addition by comparing sign bits.
pub ccmn_flags64-set_add_flags64 :
    (a b : ℕ) (r : RegFile)
    → a < 2 ^ 64
    → b < 2 ^ 64
    → ccmn_flags64 a b ≡ (set_add_flags64 a b (add64 a b) r).pstate
unfolding ccmn_flags64 set_add_flags64
ccmn_flags64-set_add_flags64 a b r p q = Pstate-eq refl refl refl (
    add_overflow 63 a b (add64 a b) (not64 (bit_xor a b)) (omega (arith, bit_xor-lt 64 a b p q))
      (omega arith) (omega arith) (omega arith))

-- For 32-bit operands the flags that CCMN computes by masking exclusive ors are the flags that the
-- ALU sets for the addition by comparing sign bits.
pub ccmn_flags32-set_add_flags32 :
    (a b : ℕ) (r : RegFile)
    → a < 2 ^ 32
    → b < 2 ^ 32
    → ccmn_flags32 a b ≡ (set_add_flags32 a b (add32 a b) r).pstate
unfolding ccmn_flags32 set_add_flags32
ccmn_flags32-set_add_flags32 a b r p q = Pstate-eq refl refl refl (
    add_overflow 31 a b (add32 a b) (not32 (bit_xor a b)) (omega (arith, bit_xor-lt 32 a b p q))
      (omega arith) (omega arith) (omega arith))
