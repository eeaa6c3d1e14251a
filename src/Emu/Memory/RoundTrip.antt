-- ===== src/Emu/Memory/RoundTrip.antt =====
-- What a load reads after a store.
use m1sim.Base.{
  ℕ, zero, suc, List, [], ◌∷◌, ◌+◌, ◌/◌, ◌%◌, ◌^◌, ◌<◌, ◌≤◌, ◌≡◌, ◌≢◌, ◌∙◌, ap, ap₂, refl, arith,
  add64, length, eq→==,
}
use m1sim.Emu.RegFile.{update}
use m1sim.Emu.Memory.{
  Memory, le_uint, le_bytes, read_bytes, write_bytes, read8, read16, read32, read64, write8,
  write16, write32, write64,
}

-- The address lies in none of the n bytes from index i of a store at addr.
abbrev pub Outside : ℕ → ℕ → ℕ → ℕ → Type 0
Outside i n addr a = (j : ℕ) → i ≤ j → j < i + n → a ≢ add64 addr j

pub write_bytes-Outside :
    (i addr a : ℕ) (bs : List ℕ) (m : Memory)
    → Outside i (length bs) addr a
    → write_bytes i addr bs m a ≡ m a
unfolding write_bytes
write_bytes-Outside i addr a [] m h = refl
write_bytes-Outside i addr a (b ∷ bs) m h =
    write_bytes-Outside (i + 1) addr a bs (update m (add64 addr i) b)
      (λ j p q. h j (omega arith) (omega arith))
    ∙ unfold write_bytes in ground (arith, h i (omega arith) (omega arith))

-- Below the size of the address space, two indices of one access are two addresses.
distinct_bytes : (addr i j : ℕ) → i < j → j < i + 2 ^ 64 → add64 addr i ≢ add64 addr j
distinct_bytes addr i j p q = omega arith

-- The bytes that a store wrote are read back, across the end of the address space too.
pub read_bytes-write_bytes :
    (i addr : ℕ) (bs : List ℕ) (m : Memory)
    → length bs ≤ 2 ^ 64
    → read_bytes (length bs) i addr (write_bytes i addr bs m) ≡ bs
unfolding read_bytes write_bytes
read_bytes-write_bytes i addr [] m h = refl
read_bytes-write_bytes i addr (b ∷ bs) m h =
    ap₂ ◌∷◌
      (write_bytes-Outside (i + 1) addr (add64 addr i) bs (update m (add64 addr i) b)
          (λ j p q. distinct_bytes addr i j (omega arith) (omega arith))
        ∙ rw (eq→== (add64 addr i) (add64 addr i) refl))
      (read_bytes-write_bytes (i + 1) addr bs (update m (add64 addr i) b) (omega arith))

-- Reading from a later address is reading from a later index.
read_bytes_shift :
    (n i k addr : ℕ) (m : Memory) → read_bytes n i (add64 addr k) m ≡ read_bytes n (k + i) addr m
unfolding read_bytes
read_bytes_shift zero i k addr m = refl
read_bytes_shift (suc n) i k addr m =
    ap₂ ◌∷◌ (ap m (omega arith))
      (read_bytes_shift n (i + 1) k addr m ∙ ap (λ (j : ℕ). read_bytes n j addr m) (omega arith))

-- An access at each width.
module _ (addr : ℕ) (m : Memory) where
  pub read8-write8 : (v : ℕ) → read8 addr (write8 addr v m) ≡ v
  unfolding read8 write8
  read8-write8 v = rw (eq→== addr addr refl)

  pub read16-write16 : (v : ℕ) → v < 2 ^ 16 → read16 addr (write16 addr v m) ≡ v
  unfolding read16 write16
  read16-write16 v h =
      ap le_uint (read_bytes-write_bytes 0 addr (le_bytes 2 v) m (omega arith)) ∙ omega arith

  pub read32-write32 : (v : ℕ) → v < 2 ^ 32 → read32 addr (write32 addr v m) ≡ v
  unfolding read32 write32
  read32-write32 v h =
      ap le_uint (read_bytes-write_bytes 0 addr (le_bytes 4 v) m (omega arith)) ∙ omega arith

  -- A 64-bit word stored at any address is read back from there, also where the access wraps around
  -- the end of the address space.
  pub read64-write64 : (v : ℕ) → v < 2 ^ 64 → read64 addr (write64 addr v m) ≡ v
  unfolding read64 write64
  read64-write64 v h =
      ap le_uint (read_bytes-write_bytes 0 addr (le_bytes 8 v) m (omega arith)) ∙ omega arith

  -- After a 64-bit word is stored at an address, the 32-bit word at that address is its low half
  -- and the one four bytes on its high half: the memory is little-endian across widths.
  pub read32-write64 :
      (v : ℕ)
      → v < 2 ^ 64
      → (read32 addr (write64 addr v m) ≡ v % 2 ^ 32)
        × (read32 (add64 addr 4) (write64 addr v m) ≡ v / 2 ^ 32)
  unfolding read32 write64
  read32-write64 v h =
      let stored = write64 addr v m in
      let bytes = read_bytes-write_bytes 0 addr (le_bytes 8 v) m (omega arith) in
      (
        unfold read_bytes in ground (arith, bytes),
        ap le_uint (read_bytes_shift 4 0 4 addr stored)
            ∙ unfold read_bytes in ground (arith, bytes),
      )

-- No byte of n from a is one of k from b.
abbrev pub Disjoint : ℕ → ℕ → ℕ → ℕ → Type 0
Disjoint n a k b = (i j : ℕ) → i < n → j < k → add64 a i ≢ add64 b j

read_bytes-write_bytes-Disjoint :
    (n i a : ℕ) (b : ℕ) (bs : List ℕ) (m : Memory)
    → Disjoint (i + n) a (length bs) b
    → read_bytes n i a (write_bytes 0 b bs m) ≡ read_bytes n i a m
unfolding read_bytes
read_bytes-write_bytes-Disjoint zero i a b bs m h = refl
read_bytes-write_bytes-Disjoint (suc n) i a b bs m h =
    ap₂ ◌∷◌ (write_bytes-Outside 0 b (add64 a i) bs m (λ j p q. h i j (omega arith) (omega arith)))
      (read_bytes-write_bytes-Disjoint n (i + 1) a b bs m
        (λ k j p q. h k j (omega arith) (omega arith)))

-- A 64-bit store changes no 64-bit load whose eight bytes are all different from the eight stored
-- ones.
pub read64-write64-Disjoint :
    (a b v : ℕ) (m : Memory) → Disjoint 8 a 8 b → read64 a (write64 b v m) ≡ read64 a m
unfolding read64 write64
read64-write64-Disjoint a b v m h = ap le_uint (
    read_bytes-write_bytes-Disjoint 8 0 a b (le_bytes 8 v) m
      (λ i j p q. h i j (omega arith) (omega arith)))
