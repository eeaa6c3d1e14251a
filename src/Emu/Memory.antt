-- ===== src/Emu/Memory.antt =====
-- emu/memory.go: byte-addressable memory, with little-endian accesses of 1, 2, 4 and 8 bytes.
pub mod RoundTrip
use m1sim.Base.{ℕ, zero, suc, List, [], ◌∷◌, ◌+◌, ◌*◌, ◌/◌, ◌%◌, add64}
use m1sim.Emu.RegFile.{update}

-- `map[uint64]byte`: an address that was never written reads as 0.
abbrev pub Memory : Type 0
Memory = ℕ → ℕ

abbrev pub empty : Memory
empty addr = 0

-- encoding/binary: the number that bytes stand for, lowest first, and the n lowest bytes of one.
abbrev pub le_uint : List ℕ → ℕ
le_uint [] = 0
le_uint (b ∷ bs) = b + 256 * le_uint bs

abbrev pub le_bytes : ℕ → ℕ → List ℕ
le_bytes zero value = []
le_bytes (suc n) value = value % 256 ∷ le_bytes n (value / 256)

-- `for ...; i < ...; i++ { buf[i] = m.data[addr+i] }`, for n more bytes from index i.
unfoldable pub read_bytes : ℕ → ℕ → ℕ → Memory → List ℕ
read_bytes zero i addr m = []
read_bytes (suc n) i addr m = m (add64 addr i) ∷ read_bytes n (i + 1) addr m

-- `for i, b := range buf { m.data[addr+uint64(i)] = b }`, from index i.
unfoldable pub write_bytes : ℕ → ℕ → List ℕ → Memory → Memory
write_bytes i addr [] m = m
write_bytes i addr (b ∷ bs) m = write_bytes (i + 1) addr bs (update m (add64 addr i) b)

unfoldable pub read8 : ℕ → Memory → ℕ
read8 addr m = m addr

unfoldable pub write8 : ℕ → ℕ → Memory → Memory
write8 addr value m = update m addr value

unfoldable pub read16 : ℕ → Memory → ℕ
read16 addr m = le_uint (read_bytes 2 0 addr m)

unfoldable pub write16 : ℕ → ℕ → Memory → Memory
write16 addr value m = write_bytes 0 addr (le_bytes 2 value) m

unfoldable pub read32 : ℕ → Memory → ℕ
read32 addr m = le_uint (read_bytes 4 0 addr m)

unfoldable pub write32 : ℕ → ℕ → Memory → Memory
write32 addr value m = write_bytes 0 addr (le_bytes 4 value) m

unfoldable pub read64 : ℕ → Memory → ℕ
read64 addr m = le_uint (read_bytes 8 0 addr m)

unfoldable pub write64 : ℕ → ℕ → Memory → Memory
write64 addr value m = write_bytes 0 addr (le_bytes 8 value) m

unfoldable pub load_program : ℕ → List ℕ → Memory → Memory
load_program addr program m = write_bytes 0 addr program m
