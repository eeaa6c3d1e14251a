-- ===== src/Emu.antt =====
-- emu: the functional emulator. Each execution unit of the source holds pointers to the shared
-- register file and memory; here a unit's method takes them and returns them changed.
mod Tests
pub mod FdTable
pub mod Syscall
pub mod RegFile
pub mod Memory
pub mod Alu
pub mod Branch
pub mod LoadStore
pub mod SimdRegFile
pub mod Simd
pub mod Exec
pub mod Emulator
