-- ===== src/Emu/LoadStore.antt =====
-- emu/load_store.go: the load/store unit. A load changes the registers, a store the memory.
use m1sim.Base.{ℕ, u8, u16, u32, add64, sext8_64, sext8_32, sext16_64, sext16_32, sext32_64}
use m1sim.Emu.RegFile.{RegFile, read_reg, write_reg}
use m1sim.Emu.Memory.{Memory, read8, read16, read32, read64, write8, write16, write32, write64}

unfoldable pub ldr64 : ℕ → ℕ → ℕ → Memory → RegFile → RegFile
unfolding read_reg write_reg
ldr64 rd rn offset m r = write_reg rd (read64 (add64 (read_reg rn r) offset) m) r

unfoldable pub ldr64_sp : ℕ → ℕ → Memory → RegFile → RegFile
unfolding write_reg
ldr64_sp rd offset m r = write_reg rd (read64 (add64 r.sp offset) m) r

unfoldable pub ldr32 : ℕ → ℕ → ℕ → Memory → RegFile → RegFile
unfolding read_reg write_reg
ldr32 rd rn offset m r = write_reg rd (read32 (add64 (read_reg rn r) offset) m) r

unfoldable pub ldr32_sp : ℕ → ℕ → Memory → RegFile → RegFile
unfolding write_reg
ldr32_sp rd offset m r = write_reg rd (read32 (add64 r.sp offset) m) r

unfoldable pub str64 : ℕ → ℕ → ℕ → RegFile → Memory → Memory
unfolding read_reg
str64 rd rn offset r m = write64 (add64 (read_reg rn r) offset) (read_reg rd r) m

unfoldable pub str64_sp : ℕ → ℕ → RegFile → Memory → Memory
unfolding read_reg
str64_sp rd offset r m = write64 (add64 r.sp offset) (read_reg rd r) m

unfoldable pub str32 : ℕ → ℕ → ℕ → RegFile → Memory → Memory
unfolding read_reg
str32 rd rn offset r m = write32 (add64 (read_reg rn r) offset) (u32 (read_reg rd r)) m

unfoldable pub str32_sp : ℕ → ℕ → RegFile → Memory → Memory
unfolding read_reg
str32_sp rd offset r m = write32 (add64 r.sp offset) (u32 (read_reg rd r)) m

unfoldable pub ldrb : ℕ → ℕ → Memory → RegFile → RegFile
unfolding write_reg
ldrb rd addr m r = write_reg rd (read8 addr m) r

unfoldable pub ldrsb64 : ℕ → ℕ → Memory → RegFile → RegFile
unfolding write_reg
ldrsb64 rd addr m r = write_reg rd (sext8_64 (read8 addr m)) r

unfoldable pub ldrsb32 : ℕ → ℕ → Memory → RegFile → RegFile
unfolding write_reg
ldrsb32 rd addr m r = write_reg rd (sext8_32 (read8 addr m)) r

unfoldable pub ldrh : ℕ → ℕ → Memory → RegFile → RegFile
unfolding write_reg
ldrh rd addr m r = write_reg rd (read16 addr m) r

unfoldable pub ldrsh64 : ℕ → ℕ → Memory → RegFile → RegFile
unfolding write_reg
ldrsh64 rd addr m r = write_reg rd (sext16_64 (read16 addr m)) r

unfoldable pub ldrsh32 : ℕ → ℕ → Memory → RegFile → RegFile
unfolding write_reg
ldrsh32 rd addr m r = write_reg rd (sext16_32 (read16 addr m)) r

unfoldable pub ldrsw : ℕ → ℕ → Memory → RegFile → RegFile
unfolding write_reg
ldrsw rd addr m r = write_reg rd (sext32_64 (read32 addr m)) r

unfoldable pub strb : ℕ → ℕ → RegFile → Memory → Memory
unfolding read_reg
strb rd addr r m = write8 addr (u8 (read_reg rd r)) m

unfoldable pub strh : ℕ → ℕ → RegFile → Memory → Memory
unfolding read_reg
strh rd addr r m = write16 addr (u16 (read_reg rd r)) m
