-- ===== src/Timing/Cache/Bytes.antt =====
-- timing/cache/cache.go: the little-endian loops on the bytes of a block.
use m1sim.Base.{
  ℕ, zero, suc, ◌+◌, ◌*◌, ◌<◌, ◌≤◌, ◌≡◌, ◌⊎◌, ◌==◌, ltb, if◌then◌else◌, u8, shr, shl64, bit_or,
  arith, refl, ap₂,
}

-- `result |= uint64(data[int(offset)+i]) << (i * 8)` for i below n.
unfoldable pub extract_bytes : (ℕ → ℕ) → ℕ → ℕ → ℕ
extract_bytes bytes offset zero = 0
extract_bytes bytes offset (suc n) =
    bit_or (extract_bytes bytes offset n) (shl64 (bytes (offset + n)) (n * 8))

-- `data[int(offset)+i] = byte(value >> (i * 8))` for i below n.
unfoldable pub store_bytes : (ℕ → ℕ) → ℕ → ℕ → ℕ → ℕ → ℕ
store_bytes bytes offset zero value = bytes
store_bytes bytes offset (suc n) value =
    λ i. if i == offset + n then u8 (shr value (n * 8)) else store_bytes bytes offset n value i

-- On a block of `len` bytes.
unfoldable pub extract_data : ℕ → (ℕ → ℕ) → ℕ → ℕ → ℕ
extract_data len bytes offset size =
    if ltb len (offset + size) then 0 else extract_bytes bytes offset size

unfoldable pub store_data : ℕ → (ℕ → ℕ) → ℕ → ℕ → ℕ → ℕ → ℕ
store_data len bytes offset size value =
    if ltb len (offset + size) then bytes else store_bytes bytes offset size value

-- The loops give the same on the bytes of the block as on the memory that the block stands for.
pub extract_bytes-view :
    (bytes view : ℕ → ℕ) (tag offset n : ℕ)
    → ((i : ℕ) → i < offset + n → view (tag + i) ≡ bytes i)
    → extract_bytes view (tag + offset) n ≡ extract_bytes bytes offset n
unfolding extract_bytes
extract_bytes-view bytes view tag offset zero h = refl
extract_bytes-view bytes view tag offset (suc n) h =
    ap₂ (λ a b. bit_or a (shl64 b (n * 8)))
      (extract_bytes-view bytes view tag offset n (λ i k. h i (omega arith)))
      (grind (arith, h (offset + n)))

pub store_bytes-view :
    (bytes view : ℕ → ℕ) (tag offset n value i : ℕ)
    → view (tag + i) ≡ bytes i
    → store_bytes view (tag + offset) n value (tag + i) ≡ store_bytes bytes offset n value i
unfolding store_bytes
store_bytes-view bytes view tag offset zero value i h = h
store_bytes-view bytes view tag offset (suc n) value i h =
    ground (arith, store_bytes-view bytes view tag offset n value i h)

pub store_bytes-outside :
    (view : ℕ → ℕ) (addr n value x : ℕ)
    → (x < addr) ⊎ (addr + n ≤ x)
    → store_bytes view addr n value x ≡ view x
unfolding store_bytes
store_bytes-outside view addr zero value x h = refl
store_bytes-outside view addr (suc n) value x h =
    ground (arith, store_bytes-outside view addr n value x)
