-- ===== src/Emu/Syscall/Areas.antt =====
-- emu/syscall.go: the heap and the mapped regions over all system calls.
use m1sim.Base.{
  ℕ, ◌≡◌, ◌≢◌, ◌≤◌, ◌+◌, ◌^◌, ◌%◌, ◌==◌, if◌then◌else◌, sym, subst, Bool-cases, ==→eq, ==→ne, inl,
  inr, arith,
}
use m1sim.Emu.RegFile.{RegFile, read_reg, write_reg}
use m1sim.Emu.Memory.{Memory}
use m1sim.Emu.FdTable.{Host}
use m1sim.Emu.Emulator.{Handled}
use m1sim.Emu.Syscall.Settings
use m1sim.Emu.Syscall.Settings.{Kernel, OpenFlags, page_size}
use m1sim.Emu.Syscall.Mappings.{AreLaidOut, IsMapped, handle_mmap-IsMapped}
use m1sim.Emu.Syscall.{
  handle_exit, handle_unknown, handle_brk, handle_mmap, handle_mprotect, finish_read, finish_write,
  handle_read, handle_write, handle_close, handle_openat, handle_lseek, handle_fstat, handle,
}

module _ {F W : Type 0} (host : Host F W) (open_flags : OpenFlags) (k : Kernel F W) (r : RegFile)
    (m : Memory) where
  -- The areas of k' are those of k.
  abbrev Same : Kernel F W → Type 0
  Same k' =
      (k'.mmap_regions ≡ k.mmap_regions)
      × (k'.next_mmap_addr ≡ k.next_mmap_addr)
      × (k'.program_break ≡ k.program_break)

  handle_read-Same : Same (handle_read host open_flags k r m).host
  unfolding handle_read finish_read
  handle_read-Same = ground arith

  handle_write-Same : Same (handle_write host open_flags k r m).host
  unfolding handle_write finish_write
  handle_write-Same = ground arith

  handle_close-Same : Same (handle_close host open_flags k r m).host
  unfolding handle_close
  handle_close-Same = ground arith

  handle_openat-Same : Same (handle_openat host open_flags k r m).host
  unfolding handle_openat
  handle_openat-Same = ground arith

  handle_lseek-Same : Same (handle_lseek host open_flags k r m).host
  unfolding handle_lseek
  handle_lseek-Same = ground arith

  handle_fstat-Same : Same (handle_fstat host open_flags k r m).host
  unfolding handle_fstat
  handle_fstat-Same = ground arith

  handle_mmap-break : (handle_mmap k r m).host.program_break ≡ k.program_break
  unfolding handle_mmap
  handle_mmap-break = ground arith

  handle_brk-regions :
      ((handle_brk k r m).host.mmap_regions ≡ k.mmap_regions)
      × ((handle_brk k r m).host.next_mmap_addr ≡ k.next_mmap_addr)
  unfolding handle_brk
  handle_brk-regions = ground arith

  -- The break after a call.
  abbrev break_after : ℕ
  break_after =
      if read_reg 8 r == Settings.syscall_brk
      then (handle_brk k r m).host.program_break
      else k.program_break

  handle-break : (handle host open_flags k r m).host.program_break ≡ break_after
  unfolding handle handle_exit handle_unknown handle_mprotect
  handle-break = ground (
    arith, handle_read-Same, handle_write-Same, handle_close-Same, handle_openat-Same,
    handle_lseek-Same, handle_fstat-Same, handle_mmap-break,
  )

  -- The heap never shrinks: a system call leaves the program break where it is or moves it up, and
  -- brk gives the break that it leaves in X0.
  pub handle-heap :
      (k.program_break ≤ (handle host open_flags k r m).host.program_break)
      × (read_reg 0 (handle_brk k r m).regs ≡ (handle_brk k r m).host.program_break)
  unfolding handle_brk read_reg write_reg
  handle-heap = (subst (λ n. k.program_break ≤ n) (sym handle-break) (ground arith), ground arith)

  handle-unmapped :
      read_reg 8 r ≢ Settings.syscall_mmap
      → ((handle host open_flags k r m).host.mmap_regions ≡ k.mmap_regions)
        × ((handle host open_flags k r m).host.next_mmap_addr ≡ k.next_mmap_addr)
  unfolding handle handle_exit handle_unknown handle_mprotect
  handle-unmapped n = ground (
    arith, handle_read-Same, handle_write-Same, handle_close-Same, handle_openat-Same,
    handle_lseek-Same, handle_fstat-Same, handle_brk-regions,
  )

  handle-mapping :
      read_reg 8 r ≡ Settings.syscall_mmap → handle host open_flags k r m ≡ handle_mmap k r m
  unfolding handle
  handle-mapping h = ground arith

  -- Every system call keeps the mapped regions in order, provided that an mmap does not run past
  -- the end of the 64-bit address space: those that the handler placed are whole pages, none is
  -- empty, and they follow one another from the base to the next free address, so that no two
  -- overlap.
  pub handle-IsMapped :
      IsMapped k
      → (read_reg 8 r ≡ Settings.syscall_mmap
          → k.next_mmap_addr + read_reg 1 r + page_size ≤ 2 ^ 64)
      → IsMapped (handle host open_flags k r m).host
  handle-IsMapped v h = elim (Bool-cases (read_reg 8 r == Settings.syscall_mmap)) [
    | inl e ↦
        let n = ==→eq (read_reg 8 r) Settings.syscall_mmap e in
        subst (λ (a : Handled (Kernel F W)). IsMapped a.host) (sym (handle-mapping n))
          (handle_mmap-IsMapped k r m v (h n))
    | inr e ↦
        let (regions, next) = handle-unmapped (==→ne (read_reg 8 r) Settings.syscall_mmap e) in
        record {
          aligned = subst (λ n. n % page_size ≡ 0) (sym next) v.aligned;
          laid_out =
              subst
                (λ n.
                  AreLaidOut Settings.default_mmap_base
                    (handle host open_flags k r m).host.mmap_regions n)
                (sym next)
                (subst (λ gs. AreLaidOut Settings.default_mmap_base gs k.next_mmap_addr)
                  (sym regions) v.laid_out);
        }
  ]
