-- ===== src/Emu/Exec/SimdOps.antt =====
-- emu/emulator.go: the SIMD formats.
use m1sim.Base.{ℕ, ◌==◌, if◌then◌else◌, add64}
use m1sim.Insts.{Op, Instruction}
use m1sim.Emu.RegFile.{RegFile, read_reg}
use m1sim.Emu.Memory.{Memory}
use m1sim.Emu.SimdRegFile.{SimdRegFile}
use m1sim.Emu.Simd
use m1sim.Emu.Simd.{FloatOps}

unfoldable pub execute_simd_reg : FloatOps → Instruction → SimdRegFile → SimdRegFile
execute_simd_reg f i v = elim i.op [
  | Op.vadd ↦ Simd.vadd i.rd i.rn i.rm i.arrangement v
  | Op.vsub ↦ Simd.vsub i.rd i.rn i.rm i.arrangement v
  | Op.vmul ↦ Simd.vmul i.rd i.rn i.rm i.arrangement v
  | Op.vfadd ↦ Simd.vfadd f i.rd i.rn i.rm i.arrangement v
  | Op.vfsub ↦ Simd.vfsub f i.rd i.rn i.rm i.arrangement v
  | Op.vfmul ↦ Simd.vfmul f i.rd i.rn i.rm i.arrangement v
  | _ ↦ v
]

-- `base + inst.Imm`, where base register 31 is SP.
unfoldable pub simd_address : Instruction → RegFile → ℕ
simd_address i r = add64 (if i.rn == 31 then r.sp else read_reg i.rn r) i.imm

-- The vector registers and the memory afterwards.
unfoldable pub execute_simd_load_store :
    Instruction → RegFile → Memory → SimdRegFile → SimdRegFile × Memory
unfolding simd_address
execute_simd_load_store i r m v = elim i.op [
  | Op.ldrq ↦ (Simd.ldr128 i.rd (simd_address i r) m v, m)
  | Op.strq ↦ (v, Simd.str128 i.rd (simd_address i r) v m)
  | _ ↦ (v, m)
]

unfoldable pub execute_simd_copy : Instruction → RegFile → SimdRegFile → SimdRegFile
execute_simd_copy i r v = elim i.op [ Op.dup ↦ Simd.dup i.rd i.rn i.arrangement r v | _ ↦ v ]
