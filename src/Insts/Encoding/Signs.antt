-- ===== src/Insts/Encoding/Signs.antt =====
-- The sign extension of the decoder in arithmetic, at each width that it is used at.
use m1sim.Base.{ℕ, ◌+◌, ◌-◌, ◌*◌, ◌≤◌, ◌<◌, ◌^◌, ◌%◌, ◌≡◌, ◌⊎◌, arith, ltb, if◌then◌else◌, not64}
use m1sim.Base.Bits.{bit_or_fields, bit_or-lt}
use m1sim.Insts.Branches.{sign_fill}

-- A multiple of 4 that a signed field of n bits reaches, as an int64 pattern.
abbrev pub Reaches : ℕ → ℕ → Type 0
Reaches n offset =
    (offset % 4 ≡ 0)
    × (offset < 2 ^ 64)
    × ((offset < 2 ^ (n + 1)) ⊎ (2 ^ 64 - 2 ^ (n + 1) ≤ offset))

pub sign_fill_26 :
    (x : ℕ)
    → x < 2 ^ 26
    → sign_fill 26 x ≡ (if ltb x (2 ^ 25) then x else (2 ^ 38 - 1) * 2 ^ 26 + x)
unfolding sign_fill
sign_fill_26 x h = ground (arith, bit_or_fields 26 (2 ^ 38 - 1) x h)

pub sign_fill_19 :
    (x : ℕ)
    → x < 2 ^ 19
    → sign_fill 19 x ≡ (if ltb x (2 ^ 18) then x else (2 ^ 45 - 1) * 2 ^ 19 + x)
unfolding sign_fill
sign_fill_19 x h = ground (arith, bit_or_fields 19 (2 ^ 45 - 1) x h)

pub sign_fill_14 :
    (x : ℕ)
    → x < 2 ^ 14
    → sign_fill 14 x ≡ (if ltb x (2 ^ 13) then x else (2 ^ 50 - 1) * 2 ^ 14 + x)
unfolding sign_fill
sign_fill_14 x h = ground (arith, bit_or_fields 14 (2 ^ 50 - 1) x h)

pub sign_fill_21 :
    (x : ℕ)
    → x < 2 ^ 21
    → sign_fill 21 x ≡ (if ltb x (2 ^ 20) then x else (2 ^ 43 - 1) * 2 ^ 21 + x)
unfolding sign_fill
sign_fill_21 x h = ground (arith, bit_or_fields 21 (2 ^ 43 - 1) x h)

pub sign_fill_9 :
    (x : ℕ) → x < 2 ^ 9 → sign_fill 9 x ≡ (if ltb x (2 ^ 8) then x else (2 ^ 55 - 1) * 2 ^ 9 + x)
unfolding sign_fill
sign_fill_9 x h = ground (arith, bit_or_fields 9 (2 ^ 55 - 1) x h)

pub sign_fill-lt : (n x : ℕ) → x < 2 ^ 64 → sign_fill n x < 2 ^ 64
unfolding sign_fill
sign_fill-lt n x h = ground (arith, bit_or-lt 64 x (not64 (2 ^ n - 1)) h (omega arith))
