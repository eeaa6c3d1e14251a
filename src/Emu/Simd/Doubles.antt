-- ===== src/Emu/Simd/Doubles.antt =====
-- The lane loop of emu/simd.go on 64-bit lanes.
use m1sim.Base.{ℕ, ◌≡◌, ◌==◌, ◌||◌, ◌&&◌, if◌then◌else◌, arith}
use m1sim.Emu.SimdRegFile.{SimdRegFile, read_lane64, write_lane64}
use m1sim.Emu.Simd.{doubles, lane_loop}

-- The lane loop on two 64-bit lanes applies the operation to the two sources as they were before,
-- lane by lane, also where the destination is one of them, and changes no other half of a register.
pub lane_loop-doubles :
    (op : ℕ → ℕ → ℕ) (vd vn vm reg half : ℕ) (v : SimdRegFile)
    → lane_loop doubles op vd vn vm 2 0 v reg half
      ≡ (if reg == vd && (half == 0 || half == 1) then op (v vn half) (v vm half) else v reg half)
unfolding lane_loop read_lane64 write_lane64
lane_loop-doubles op vd vn vm reg half v = ground arith
