-- ===== src/Emu/Alu/Flags.antt =====
-- The flags of additions and subtractions, against arithmetic on integers.
use m1sim.Base.{
  ℕ, Bool, not, ◌&&◌, ◌||◌, ◌==◌, ◌≡◌, ◌<◌, ◌+◌, ◌-◌, ◌^◌, ◌%◌, refl, arith, ltb, leb,
  if◌then◌else◌, add64, sub64, add32, sub32, shr,
}
use m1sim.Base.Int.{ℤ, pos, negsuc, ◌+ℤ◌, ◌-ℤ◌, ltb_ℤ, leb_ℤ, signed64, signed32}
use m1sim.Emu.RegFile.{Pstate, RegFile}
use m1sim.Emu.Alu.{set_add_flags64, set_sub_flags64, set_add_flags32, set_sub_flags32}

-- The integer does not fit the width.
abbrev pub overflows : ℕ → ℤ → Bool
overflows half z = ltb_ℤ z (negsuc (half - 1)) || leb_ℤ (pos half) z

abbrev pub negative : ℤ → Bool
negative z = ltb_ℤ z (pos 0)

pub Pstate-eq :
    {n n' z z' c c' v v' : Bool}
    → n ≡ n'
    → z ≡ z'
    → c ≡ c'
    → v ≡ v'
    → ◌≡◌ {A = Pstate}
        (record { n = n; z = z; c = c; v = v })
        (record { n = n'; z = z'; c = c'; v = v' })
Pstate-eq p q r s = λ i. record { n = p i; z = q i; c = r i; v = s i }

carry64 : (a b : ℕ) → a < 2 ^ 64 → b < 2 ^ 64 → ltb (add64 a b) a ≡ leb (2 ^ 64) (a + b)
carry64 a b p q = ground arith

carry32 : (a b : ℕ) → a < 2 ^ 32 → b < 2 ^ 32 → ltb (add32 a b) a ≡ leb (2 ^ 32) (a + b)
carry32 a b p q = ground arith

-- The sign bit, as an order.
sign64 : (x : ℕ) → x < 2 ^ 64 → shr x 63 ≡ (if ltb x (2 ^ 63) then 0 else 1)
sign64 x h = ground arith

sign32 : (x : ℕ) → x < 2 ^ 32 → shr x 31 ≡ (if ltb x (2 ^ 31) then 0 else 1)
sign32 x h = ground arith

add_overflow64 :
    (a b : ℕ)
    → a < 2 ^ 64
    → b < 2 ^ 64
    → (let sum = add64 a b in shr a 63 == shr b 63 && not (shr a 63 == shr sum 63))
      ≡ overflows (2 ^ 63) (signed64 a +ℤ signed64 b)
unfolding ◌+ℤ◌
add_overflow64 a b p q =
    rw (sign64 a p, sign64 b q, sign64 (add64 a b) (omega arith)) (ground arith)

add_overflow32 :
    (a b : ℕ)
    → a < 2 ^ 32
    → b < 2 ^ 32
    → (let sum = add32 a b in shr a 31 == shr b 31 && not (shr a 31 == shr sum 31))
      ≡ overflows (2 ^ 31) (signed32 a +ℤ signed32 b)
unfolding ◌+ℤ◌
add_overflow32 a b p q =
    rw (sign32 a p, sign32 b q, sign32 (add32 a b) (omega arith)) (ground arith)

sub_overflow64 :
    (a b : ℕ)
    → a < 2 ^ 64
    → b < 2 ^ 64
    → (let diff = sub64 a b in not (shr a 63 == shr b 63) && shr b 63 == shr diff 63)
      ≡ overflows (2 ^ 63) (signed64 a -ℤ signed64 b)
unfolding ◌-ℤ◌
sub_overflow64 a b p q =
    rw (sign64 a p, sign64 b q, sign64 (sub64 a b) (omega arith)) (ground arith)

sub_overflow32 :
    (a b : ℕ)
    → a < 2 ^ 32
    → b < 2 ^ 32
    → (let diff = sub32 a b in not (shr a 31 == shr b 31) && shr b 31 == shr diff 31)
      ≡ overflows (2 ^ 31) (signed32 a -ℤ signed32 b)
unfolding ◌-ℤ◌
sub_overflow32 a b p q =
    rw (sign32 a p, sign32 b q, sign32 (sub32 a b) (omega arith)) (ground arith)

-- For 64-bit operands the flags of an addition are those of the arithmetic: N is the sign of the
-- wrapped sum, Z that the sum is 0 modulo 2 ^ 64, C that the sum of the unsigned values leaves 64
-- bits, V that the sum of the signed values does.
pub set_add_flags64_lem :
    (a b : ℕ) (r : RegFile)
    → a < 2 ^ 64
    → b < 2 ^ 64
    → (set_add_flags64 a b (add64 a b) r).pstate ≡ record {
      n = negative (signed64 (add64 a b));
      z = (a + b) % 2 ^ 64 == 0;
      c = leb (2 ^ 64) (a + b);
      v = overflows (2 ^ 63) (signed64 a +ℤ signed64 b);
    }
unfolding set_add_flags64
set_add_flags64_lem a b r p q =
    Pstate-eq (ground arith) refl (carry64 a b p q) (add_overflow64 a b p q)

pub set_sub_flags64_lem :
    (a b : ℕ) (r : RegFile)
    → a < 2 ^ 64
    → b < 2 ^ 64
    → (set_sub_flags64 a b (sub64 a b) r).pstate ≡ record {
      n = negative (signed64 (sub64 a b));
      z = a == b;
      c = leb b a;
      v = overflows (2 ^ 63) (signed64 a -ℤ signed64 b);
    }
unfolding set_sub_flags64
set_sub_flags64_lem a b r p q =
    Pstate-eq (ground arith) (ground arith) refl (unfold ◌-ℤ◌ in sub_overflow64 a b p q)

-- For 32-bit operands the flags of an addition are those of the arithmetic: N is the sign of the
-- wrapped sum, Z that the sum is 0 modulo 2 ^ 32, C that the sum of the unsigned values leaves 32
-- bits, V that the sum of the signed values does.
pub set_add_flags32_lem :
    (a b : ℕ) (r : RegFile)
    → a < 2 ^ 32
    → b < 2 ^ 32
    → (set_add_flags32 a b (add32 a b) r).pstate ≡ record {
      n = negative (signed32 (add32 a b));
      z = (a + b) % 2 ^ 32 == 0;
      c = leb (2 ^ 32) (a + b);
      v = overflows (2 ^ 31) (signed32 a +ℤ signed32 b);
    }
unfolding set_add_flags32
set_add_flags32_lem a b r p q =
    Pstate-eq (ground arith) refl (carry32 a b p q) (add_overflow32 a b p q)

pub set_sub_flags32_lem :
    (a b : ℕ) (r : RegFile)
    → a < 2 ^ 32
    → b < 2 ^ 32
    → (set_sub_flags32 a b (sub32 a b) r).pstate ≡ record {
      n = negative (signed32 (sub32 a b));
      z = a == b;
      c = leb b a;
      v = overflows (2 ^ 31) (signed32 a -ℤ signed32 b);
    }
unfolding set_sub_flags32
set_sub_flags32_lem a b r p q =
    Pstate-eq (ground arith) (ground arith) refl (unfold ◌-ℤ◌ in sub_overflow32 a b p q)
