-- ===== src/Base/Bits.antt =====
-- Laws of `bit_and`, `bit_or` and `bit_xor` at variables, from the recursion on binary digits that
-- the native operations stand for.
use Prim.Native.Nat.{
  ℕ, zero, suc, ◌+◌, ◌-◌, ◌*◌, ◌/◌, ◌%◌, ◌^◌, ◌≤◌, ◌<◌, min, max, digits, bitwise, differ, bit_and,
  bit_or, bit_xor, bit_and-bitwise, bit_or-bitwise, bit_xor-bitwise,
}
use mathlib.Core.Path.{◌≡◌, refl, ap, sym, ◌∙◌}
use native.Mathlib.Nat.{pow-suc, one-le-pow, div-div-eq-div-mul, mul_comm}
use native.Mathlib.Omega.{arith}
use m1sim.Base.Word.{field}

-- More fuel than the first number changes nothing, so one digit can be taken off at a time.
module _ (z : ℕ → ℕ) (f : ℕ → ℕ → ℕ) where
  digits_enough : (n m a b : ℕ) → a ≤ n → a ≤ m → digits z f n a b ≡ digits z f m a b
  digits_enough zero zero a b p q = refl
  digits_enough zero (suc m) zero b p q = refl
  digits_enough zero (suc m) (suc a) b p q = absurd (omega arith)
  digits_enough (suc n) zero zero b p q = refl
  digits_enough (suc n) zero (suc a) b p q = absurd (omega arith)
  digits_enough (suc n) (suc m) zero b p q = refl
  digits_enough (suc n) (suc m) (suc a) b p q =
      omega (arith, digits_enough n m (suc a / 2) (b / 2) (omega arith) (omega arith))

  bitwise_low :
      (a b : ℕ)
      → bitwise z f (suc a) b ≡ bitwise z f (suc a / 2) (b / 2) * 2 + f (suc a % 2) (b % 2)
  bitwise_low a b =
      omega (arith, digits_enough a (suc a / 2) (suc a / 2) (b / 2) (omega arith) (omega arith))

zero-bit_and : (b : ℕ) → bit_and 0 b ≡ 0
zero-bit_and b = bit_and-bitwise 0 b

pub zero-bit_or : (b : ℕ) → bit_or 0 b ≡ b
zero-bit_or b = bit_or-bitwise 0 b

pub bit_and_low : (a b : ℕ) → bit_and a b ≡ bit_and (a / 2) (b / 2) * 2 + min (a % 2) (b % 2)
bit_and_low zero b = simp bit_and-bitwise (omega arith)
bit_and_low (suc a) b = simp bit_and-bitwise (bitwise_low (λ x. 0) min a b)

pub bit_or_low : (a b : ℕ) → bit_or a b ≡ bit_or (a / 2) (b / 2) * 2 + max (a % 2) (b % 2)
bit_or_low zero b = simp bit_or-bitwise (omega arith)
bit_or_low (suc a) b = simp bit_or-bitwise (bitwise_low (λ x. x) max a b)

pub bit_xor_low : (a b : ℕ) → bit_xor a b ≡ bit_xor (a / 2) (b / 2) * 2 + differ (a % 2) (b % 2)
bit_xor_low zero b = simp bit_xor-bitwise (omega arith)
bit_xor_low (suc a) b = simp bit_xor-bitwise (bitwise_low (λ x. x) differ a b)

-- A result has no more digits than the operands.
pub bit_and-lt : (k a b : ℕ) → a < 2 ^ k → bit_and a b < 2 ^ k
bit_and-lt zero zero b h = omega (arith, bit_and-bitwise 0 b)
bit_and-lt zero (suc a) b h = absurd (omega arith)
bit_and-lt (suc k) a b h =
    let double = pow-suc 2 k in
    omega (arith, bit_and_low a b, double, bit_and-lt k (a / 2) (b / 2) (omega (arith, double)))

pub bit_or-lt : (k a b : ℕ) → a < 2 ^ k → b < 2 ^ k → bit_or a b < 2 ^ k
bit_or-lt zero zero b h h' = omega (arith, bit_or-bitwise 0 b)
bit_or-lt zero (suc a) b h h' = absurd (omega arith)
bit_or-lt (suc k) a b h h' =
    let double = pow-suc 2 k in
    let half : a / 2 < 2 ^ k = omega (arith, double) in
    let half' : b / 2 < 2 ^ k = omega (arith, double) in
    omega (arith, bit_or_low a b, double, bit_or-lt k (a / 2) (b / 2) half half')

differ-lt : (a b : ℕ) → a < 2 → b < 2 → differ a b < 2
differ-lt zero b h h' = h'
differ-lt (suc zero) zero h h' = omega arith
differ-lt (suc zero) (suc zero) h h' = omega arith
differ-lt (suc zero) (suc (suc b)) h h' = absurd (omega arith)
differ-lt (suc (suc a)) b h h' = absurd (omega arith)

pub bit_xor-lt : (k a b : ℕ) → a < 2 ^ k → b < 2 ^ k → bit_xor a b < 2 ^ k
bit_xor-lt zero zero b h h' = omega (arith, bit_xor-bitwise 0 b)
bit_xor-lt zero (suc a) b h h' = absurd (omega arith)
bit_xor-lt (suc k) a b h h' =
    let double = pow-suc 2 k in
    let half : a / 2 < 2 ^ k = omega (arith, double) in
    let half' : b / 2 < 2 ^ k = omega (arith, double) in
    let low = differ-lt (a % 2) (b % 2) (omega arith) (omega arith) in
    omega (arith, bit_xor_low a b, double, bit_xor-lt k (a / 2) (b / 2) half half', low)

-- x & m is at most m, whatever x is.
bit_and_le_fuel : (n a b : ℕ) → a ≤ n → bit_and a b ≤ b
bit_and_le_fuel n zero b h = omega (arith, zero-bit_and b)
bit_and_le_fuel zero (suc a) b h = absurd (omega arith)
bit_and_le_fuel (suc n) (suc a) b h =
    omega (arith, bit_and_low (suc a) b, bit_and_le_fuel n (suc a / 2) (b / 2) (omega arith))

pub bit_and-le : (a b : ℕ) → bit_and a b ≤ b
bit_and-le a b = bit_and_le_fuel a a b (omega arith)

bit_or_zero_fuel : (n a : ℕ) → a ≤ n → bit_or a 0 ≡ a
bit_or_zero_fuel n zero h = refl
bit_or_zero_fuel zero (suc a) h = absurd (omega arith)
bit_or_zero_fuel (suc n) (suc a) h =
    omega (arith, bit_or_low (suc a) 0, bit_or_zero_fuel n (suc a / 2) (omega arith))

pub bit_or-zero : (a : ℕ) → bit_or a 0 ≡ a
bit_or-zero a = bit_or_zero_fuel a a (omega arith)

-- A shift right goes through the digit-wise operations.
div-pow_suc : (x k : ℕ) → x / 2 ^ suc k ≡ x / 2 / 2 ^ k
div-pow_suc x k =
    ap (λ (d : ℕ). x / d) (pow-suc 2 k ∙ mul_comm _ 2) ∙ sym (div-div-eq-div-mul x 2 (2 ^ k))

shr_zero : (x : ℕ) → x / 2 ^ 0 ≡ x
shr_zero x = omega arith

pub bit_and-shr : (k a b : ℕ) → bit_and a b / 2 ^ k ≡ bit_and (a / 2 ^ k) (b / 2 ^ k)
bit_and-shr zero a b = simp shr_zero
bit_and-shr (suc k) a b =
    simp div-pow_suc (ap (λ (x : ℕ). x / 2 ^ k) half ∙ bit_and-shr k (a / 2) (b / 2))
  where
    half : bit_and a b / 2 ≡ bit_and (a / 2) (b / 2)
    half = omega (arith, bit_and_low a b)

pub bit_xor-shr : (k a b : ℕ) → bit_xor a b / 2 ^ k ≡ bit_xor (a / 2 ^ k) (b / 2 ^ k)
bit_xor-shr zero a b = simp shr_zero
bit_xor-shr (suc k) a b =
    simp div-pow_suc (ap (λ (x : ℕ). x / 2 ^ k) half ∙ bit_xor-shr k (a / 2) (b / 2))
  where
    half : bit_xor a b / 2 ≡ bit_xor (a / 2) (b / 2)
    half = omega (arith, bit_xor_low a b, differ-lt (a % 2) (b % 2) (omega arith) (omega arith))

mul-pow_suc : (q k : ℕ) → q * 2 ^ suc k ≡ 2 * (q * 2 ^ k)
mul-pow_suc q k = omega (arith, ap (λ (t : ℕ). q * t) (pow-suc 2 k))

-- Disjoint fields: `|` is a sum, in either order.
pub bit_or_high : (k q r : ℕ) → r < 2 ^ k → bit_or (q * 2 ^ k) r ≡ q * 2 ^ k + r
bit_or_high zero q zero h = simp (bit_or-zero) (omega arith)
bit_or_high zero q (suc r) h = absurd (omega arith)
bit_or_high (suc k) q r h =
    let rest = bit_or_high k q (r / 2) (omega (arith, pow-suc 2 k)) in
    ground (arith, mul-pow_suc q k, rest, bit_or_low (q * 2 ^ suc k) r)

pub bit_or_fields : (k q r : ℕ) → r < 2 ^ k → bit_or r (q * 2 ^ k) ≡ q * 2 ^ k + r
bit_or_fields zero q zero h = simp (zero-bit_or) (omega arith)
bit_or_fields zero q (suc r) h = absurd (omega arith)
bit_or_fields (suc k) q r h =
    let rest = bit_or_fields k q (r / 2) (omega (arith, pow-suc 2 k)) in
    ground (arith, mul-pow_suc q k, rest, bit_or_low r (q * 2 ^ suc k))

-- A mask of k ones takes the remainder by 2 ^ k.
mask_low : (k q r : ℕ) → r < 2 ^ k → bit_and (q * 2 ^ k + r) (2 ^ k - 1) ≡ r
mask_low zero q r h = omega (arith, bit_and-le (q * 2 ^ 0 + r) 0)
mask_low (suc k) q r h =
    let rest = mask_low k q (r / 2) (omega (arith, pow-suc 2 k)) in
    ground
      (arith, mul-pow_suc q k, rest, pow-suc 2 k, bit_and_low (q * 2 ^ suc k + r) (2 ^ suc k - 1))

pub bit_and_mask : (k a : ℕ) → bit_and a (2 ^ k - 1) ≡ a % 2 ^ k
bit_and_mask k a = ground (arith, one-le-pow k 2, mask_low k (a / 2 ^ k) (a % 2 ^ k))

-- The two ways to read a bit field of a word.
pub field-bit_and : (lo n word : ℕ) → field lo n word ≡ bit_and (word / 2 ^ lo) (2 ^ n - 1)
field-bit_and lo n word = sym (bit_and_mask n (word / 2 ^ lo))
