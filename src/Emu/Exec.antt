-- ===== src/Emu/Exec.antt =====
-- emu/emulator.go: the handlers `execute*` of the instruction formats.
pub mod Sequential
pub mod DataReg
pub mod Bitfield
pub mod Arith
pub mod Control
pub mod MemoryOps
pub mod SimdOps
