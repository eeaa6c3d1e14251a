-- ===== src/Emu/Syscall/Frame.antt =====
-- emu/syscall.go: what a system call leaves of the registers.
use m1sim.Base.{ℕ, ◌≡◌, ◌≢◌, arith}
use m1sim.Emu.RegFile.{RegFile, write_reg}
use m1sim.Emu.Memory.{Memory}
use m1sim.Emu.FdTable.{Host}
use m1sim.Emu.Simd.{FloatOps}
use m1sim.Emu.Emulator.{Machine, step}
use m1sim.Emu.Emulator.Advance.{step-x31}
use m1sim.Emu.Syscall.Settings.{Kernel, OpenFlags}
use m1sim.Emu.Syscall.{
  set_error, handle_exit, handle_unknown, handle_brk, handle_mmap, handle_mprotect, finish_read,
  finish_write, handle_read, handle_write, handle_close, handle_openat, handle_lseek, handle_fstat,
  handle,
}

module _ {F W : Type 0} (host : Host F W) (open_flags : OpenFlags) (k : Kernel F W) (r : RegFile)
    (m : Memory) (j : ℕ) (other : j ≢ 0) where
  abbrev pub IsKept : RegFile → Type 0
  IsKept r' = (r'.x j ≡ r.x j) × (r'.sp ≡ r.sp) × (r'.pc ≡ r.pc) × (r'.pstate ≡ r.pstate)

  handle_brk-IsKept : IsKept (handle_brk k r m).regs
  unfolding handle_brk write_reg
  handle_brk-IsKept = ground arith

  handle_mmap-IsKept : IsKept (handle_mmap k r m).regs
  unfolding handle_mmap set_error write_reg
  handle_mmap-IsKept = ground arith

  handle_read-IsKept : IsKept (handle_read host open_flags k r m).regs
  unfolding handle_read finish_read set_error write_reg
  handle_read-IsKept = ground arith

  handle_write-IsKept : IsKept (handle_write host open_flags k r m).regs
  unfolding handle_write finish_write set_error write_reg
  handle_write-IsKept = ground arith

  handle_close-IsKept : IsKept (handle_close host open_flags k r m).regs
  unfolding handle_close set_error write_reg
  handle_close-IsKept = ground arith

  handle_openat-IsKept : IsKept (handle_openat host open_flags k r m).regs
  unfolding handle_openat set_error write_reg
  handle_openat-IsKept = ground arith

  handle_lseek-IsKept : IsKept (handle_lseek host open_flags k r m).regs
  unfolding handle_lseek set_error write_reg
  handle_lseek-IsKept = ground arith

  handle_fstat-IsKept : IsKept (handle_fstat host open_flags k r m).regs
  unfolding handle_fstat set_error write_reg
  handle_fstat-IsKept = ground arith

  -- A system call changes no register but X0, and neither the stack pointer, nor the program
  -- counter, nor the flags.
  pub handle-IsKept : IsKept (handle host open_flags k r m).regs
  unfolding handle handle_mprotect handle_exit handle_unknown set_error write_reg
  handle-IsKept = ground (
    arith, handle_brk-IsKept, handle_mmap-IsKept, handle_read-IsKept, handle_write-IsKept,
    handle_close-IsKept, handle_openat-IsKept, handle_lseek-IsKept, handle_fstat-IsKept,
  )

-- With this handler no step of the emulator writes the array element of register 31.
pub step-handle_x31 :
    {F W : Type 0} (host : Host F W) (open_flags : OpenFlags) (floats : FloatOps)
    (mach : Machine (Kernel F W))
    → (step (handle host open_flags) floats mach).0.regs.x 31 ≡ mach.regs.x 31
step-handle_x31 host open_flags floats mach =
    step-x31 (handle host open_flags) floats mach
      (λ k r m. (handle-IsKept host open_flags k r m 31 (λ e. absurd (omega arith))).0)
