-- ===== src/Timing/Cache/MemoryBacking.antt =====
-- timing/cache/backing.go: the emulator's memory as a backing store.
use m1sim.Base.{ℕ, zero, suc, ◌+◌, ◌^◌, ◌<◌, ◌≤◌, ◌≡◌, ◌⊎◌, add64, arith, refl, ap}
use m1sim.Emu.Memory.{Memory, read8, write8}
use m1sim.Timing.Cache.Parts.{BackingStore}
use m1sim.Timing.Cache.View.{IsBackingStore}

-- `data[i] = m.memory.Read8(addr + uint64(i))`
unfoldable pub read_data : ℕ → Memory → ℕ → ℕ
unfolding read8
read_data addr m i = read8 (add64 addr i) m

-- `m.memory.Write8(addr+uint64(i), b)` for i below n.
unfoldable pub write_data : ℕ → ℕ → (ℕ → ℕ) → Memory → Memory
unfolding write8
write_data addr zero bytes m = m
write_data addr (suc n) bytes m = write8 (add64 addr n) (bytes n) (write_data addr n bytes m)

unfoldable pub memory_backing : BackingStore Memory
unfolding read_data write_data
memory_backing = record {
  read = λ addr size m. (read_data addr m, m);
  write = λ addr size bytes m. write_data addr size bytes m;
}

write_data-outside :
    (addr n : ℕ) (bytes : ℕ → ℕ) (m : Memory) (x : ℕ)
    → addr + n ≤ 2 ^ 64
    → (x < addr) ⊎ (addr + n ≤ x)
    → write_data addr n bytes m x ≡ m x
unfolding write_data write8
write_data-outside addr zero bytes m x l o = refl
write_data-outside addr (suc n) bytes m x l o = ground (arith, write_data-outside addr n bytes m x)

write_data-inside :
    (addr n : ℕ) (bytes : ℕ → ℕ) (m : Memory) (i : ℕ)
    → addr + n ≤ 2 ^ 64
    → i < n
    → write_data addr n bytes m (addr + i) ≡ bytes i
unfolding write_data write8
write_data-inside addr zero bytes m i l h = absurd (omega arith)
write_data-inside addr (suc n) bytes m i l h = ground (arith, write_data-inside addr n bytes m i)

-- The emulator's memory keeps what a backing store promises: a read gives its bytes and changes
-- none, and a write changes the bytes written and no others, within the 64-bit address space.
pub memory_backing-IsBackingStore : IsBackingStore memory_backing (λ m. m)
unfolding memory_backing read_data read8
memory_backing-IsBackingStore = record {
  read_bytes = λ addr size m i l h. ap m (omega arith);
  read_memory = λ addr size m x. refl;
  write_inside = λ addr size bytes m i l h. write_data-inside addr size bytes m i l h;
  write_outside = λ addr size bytes m x l o. write_data-outside addr size bytes m x l o;
}
