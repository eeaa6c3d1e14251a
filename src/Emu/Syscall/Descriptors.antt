-- ===== src/Emu/Syscall/Descriptors.antt =====
-- emu/syscall.go: the system calls on file descriptors.
use m1sim.Base.{
  ℕ, Bool, true, false, ◌≡◌, ◌<◌, ◌+◌, ◌^◌, ◌==◌, ◌&&◌, ◌||◌, leb, ltb, if◌then◌else◌, none, some,
  refl, ap, subst, sym, arith,
}
use m1sim.Emu.RegFile.{RegFile, read_reg}
use m1sim.Emu.Memory.{Memory}
use m1sim.Emu.FdTable.{
  invalid, failed, Host, FdTable, get, host_file_of, read_fd, write_fd, stat_fd, seek_fd, close_fd,
  open_fd,
}
use m1sim.Emu.FdTable.Descriptors.{IsValid, open_fd-IsValid, close_fd-IsValid}
use m1sim.Emu.Syscall.Settings
use m1sim.Emu.Syscall.Settings.{Kernel, OpenFlags}
use m1sim.Emu.Syscall.{
  failing, read_string, string_fuel, linux_to_go_flags, handle_exit, handle_unknown, handle_brk,
  handle_mmap, handle_mprotect, finish_read, finish_write, handle_read, handle_write, handle_close,
  handle_openat, handle_lseek, handle_fstat, handle,
}
use m1sim.Base.{u32}

-- The calls that work on the descriptor in X0: for lseek, with a `whence` that it knows.
abbrev pub uses_descriptor : ℕ → ℕ → Bool
uses_descriptor n whence =
    n == Settings.syscall_close
    || n == Settings.syscall_read
    || n == Settings.syscall_write
    || n == Settings.syscall_fstat
    || n == Settings.syscall_lseek && leb whence 2

module _ {F W : Type 0} (host : Host F W) (open_flags : OpenFlags) (k : Kernel F W) (r : RegFile)
    (m : Memory) where
  module _ (unopened : get (read_reg 0 r) k.fd_table ≡ none) (l : 2 < read_reg 0 r) where
    big : leb (read_reg 0 r) 2 ≡ false
    big = ground arith

    apart : (n : ℕ) → n < 3 → (read_reg 0 r == n) ≡ false
    apart n h = ground arith

    no_file : host_file_of (read_reg 0 r) k.fd_table ≡ none
    unfolding host_file_of
    no_file = rw (host_file_of, unopened) refl

    handle_close-unopened : handle_close host open_flags k r m ≡ failing Settings.ebadf k r m
    unfolding handle_close close_fd
    handle_close-unopened =
        let e : close_fd host (read_reg 0 r) k.fd_table k.world
            ≡ (some invalid, k.fd_table, k.world) =
          rw (close_fd, unopened) refl in
        rw (handle_close, ap (λ a. a.0) e, ap (λ a. a.1) e, ap (λ a. a.2) e) refl

    handle_read-unopened : handle_read host open_flags k r m ≡ failing Settings.ebadf k r m
    unfolding handle_read read_fd finish_read
    handle_read-unopened = rw (handle_read, apart 0 (omega arith), read_fd, no_file) refl

    handle_write-unopened : handle_write host open_flags k r m ≡ failing Settings.ebadf k r m
    unfolding handle_write write_fd finish_write
    handle_write-unopened =
        rw (handle_write, apart 1 (omega arith), apart 2 (omega arith), write_fd, big, no_file) refl

    handle_fstat-unopened : handle_fstat host open_flags k r m ≡ failing Settings.ebadf k r m
    unfolding handle_fstat stat_fd
    handle_fstat-unopened = rw (handle_fstat, stat_fd, unopened) refl

    seek_fd-unopened :
        seek_fd host (read_reg 0 r) (read_reg 1 r) (read_reg 2 r) k.fd_table k.world
        ≡ (failed invalid, k.world)
    unfolding seek_fd
    seek_fd-unopened = rw (seek_fd, big, no_file) refl

    handle_lseek-unopened :
        leb (read_reg 2 r) 2 ≡ true
        → handle_lseek host open_flags k r m ≡ failing Settings.ebadf k r m
    unfolding handle_lseek
    handle_lseek-unopened h =
        let bad : (leb (2 ^ 63) (read_reg 2 r) || ltb Settings.seek_end (read_reg 2 r)) ≡ false =
          ground arith in
        let e = seek_fd-unopened in
        rw (handle_lseek, big, bad, ap (λ a. a.0) e, ap (λ a. a.1) e) refl

    -- A close, read, write, fstat or (with a `whence` of 0, 1 or 2) lseek of a descriptor above the
    -- standard ones that is not open gives -EBADF in X0 and changes neither the memory, nor the
    -- table of descriptors, nor the host, nor any other part of the state of the handler.
    pub handle-unopened :
        uses_descriptor (read_reg 8 r) (read_reg 2 r) ≡ true
        → handle host open_flags k r m ≡ failing Settings.ebadf k r m
    unfolding handle
    handle-unopened h = ground (
      arith, handle_close-unopened, handle_read-unopened, handle_write-unopened,
      handle_fstat-unopened, handle_lseek-unopened,
    )

  -- The table after a call: openat and close change it.
  abbrev opened : FdTable F
  opened =
      (open_fd host (read_string string_fuel (read_reg 1 r) m)
        (linux_to_go_flags open_flags (read_reg 2 r)) (u32 (read_reg 3 r)) k.fd_table k.world).1

  abbrev closed : FdTable F
  closed = (close_fd host (read_reg 0 r) k.fd_table k.world).1

  abbrev table_after : FdTable F
  table_after =
      if read_reg 8 r == Settings.syscall_openat
      then (if read_reg 0 r == Settings.at_fdcwd then opened else k.fd_table)
      else if read_reg 8 r == Settings.syscall_close
      then closed
      else k.fd_table

  handle_openat-table :
      (handle_openat host open_flags k r m).host.fd_table
      ≡ (if read_reg 0 r == Settings.at_fdcwd then opened else k.fd_table)
  unfolding handle_openat
  handle_openat-table = ground arith

  handle_close-table : (handle_close host open_flags k r m).host.fd_table ≡ closed
  unfolding handle_close
  handle_close-table = ground arith

  handle_mmap-table : (handle_mmap k r m).host.fd_table ≡ k.fd_table
  unfolding handle_mmap
  handle_mmap-table = ground arith

  handle_brk-table : (handle_brk k r m).host.fd_table ≡ k.fd_table
  unfolding handle_brk
  handle_brk-table = ground arith

  handle_read-table : (handle_read host open_flags k r m).host.fd_table ≡ k.fd_table
  unfolding handle_read finish_read
  handle_read-table = ground arith

  handle_write-table : (handle_write host open_flags k r m).host.fd_table ≡ k.fd_table
  unfolding handle_write finish_write
  handle_write-table = ground arith

  handle_lseek-table : (handle_lseek host open_flags k r m).host.fd_table ≡ k.fd_table
  unfolding handle_lseek
  handle_lseek-table = ground arith

  handle_fstat-table : (handle_fstat host open_flags k r m).host.fd_table ≡ k.fd_table
  unfolding handle_fstat
  handle_fstat-table = ground arith

  handle-table : (handle host open_flags k r m).host.fd_table ≡ table_after
  unfolding handle handle_exit handle_unknown handle_mprotect
  handle-table = ground (
    arith, handle_openat-table, handle_close-table, handle_mmap-table, handle_brk-table,
    handle_read-table, handle_write-table, handle_lseek-table, handle_fstat-table,
  )

  IsValid-if : (b : Bool) (t u : FdTable F) → IsValid t → IsValid u → IsValid (if b then t else u)
  IsValid-if true t u v w = v
  IsValid-if false t u v w = w

  -- Every system call keeps the table of descriptors valid, whatever the host does, provided that
  -- the numbers are not used up: no number from the next one on is in the table, and each open one
  -- above the standard ones has a file of the host.
  pub handle-IsValid :
      IsValid k.fd_table
      → k.fd_table.next_fd + 1 < 2 ^ 64
      → IsValid (handle host open_flags k r m).host.fd_table
  handle-IsValid v h =
      let after_open =
        open_fd-IsValid host k.fd_table v k.world (read_string string_fuel (read_reg 1 r) m)
          (linux_to_go_flags open_flags (read_reg 2 r)) (u32 (read_reg 3 r)) h in
      subst IsValid (sym handle-table) (
        IsValid-if (read_reg 8 r == Settings.syscall_openat) _ _
          (IsValid-if (read_reg 0 r == Settings.at_fdcwd) opened k.fd_table after_open v)
          (IsValid-if (read_reg 8 r == Settings.syscall_close) closed k.fd_table
            (close_fd-IsValid host k.fd_table v k.world (read_reg 0 r)) v))
