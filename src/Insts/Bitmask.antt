-- ===== src/Insts/Bitmask.antt =====
-- insts/decoder.go: `DecodeBitmaskImmediate`, the immediates of AND, ORR and EOR.
use m1sim.Base.{ℕ, zero, suc, Bool, ◌+◌, ◌-◌, ◌^◌, ◌==◌, ltb, if◌then◌else◌}
use m1sim.Base.{shr, shl64, sub64, bit_and, bit_or}

-- `for i := 5; i >= 1; i--`: the highest bit, from `i` down to 1, that is 0 in imms, or 0.
unfoldable pub highest_zero : ℕ → ℕ → ℕ
highest_zero zero imms = 0
highest_zero (suc i) imms = if bit_and imms (2 ^ suc i) == 0 then suc i else highest_zero i imms

unfoldable pub element_len : ℕ → ℕ → ℕ
unfolding highest_zero
element_len n imms =
    let len = highest_zero 5 imms in if n == 1 then 6 else if len == 0 then 1 else len

-- `for i := 0; i < 64; i += esize { result |= welem << i }`, on fuel: 64 rounds are enough, since
-- esize is positive.
unfoldable pub replicate_element : ℕ → ℕ → ℕ → ℕ → ℕ → ℕ
replicate_element zero esize welem i result = result
replicate_element (suc fuel) esize welem i result =
    let rest = replicate_element fuel esize welem (i + esize) (bit_or result (shl64 welem i)) in
    if ltb i 64 then rest else result

unfoldable pub decode_bitmask_immediate : ℕ → ℕ → ℕ → Bool → ℕ
decode_bitmask_immediate n immr imms is_64bit =
    let esize = shl64 1 (element_len n imms) in
    let levels = esize - 1 in
    let s = bit_and imms levels in
    let r = bit_and immr levels in
    let ones = sub64 (shl64 1 (s + 1)) 1 in
    let welem =
      if ltb 0 r
      then bit_and (bit_or (shr ones r) (shl64 ones (esize - r))) (sub64 (shl64 1 esize) 1)
      else ones in
    let result = replicate_element 64 esize welem 0 0 in
    if is_64bit then result else bit_and result 0xFFFFFFFF
