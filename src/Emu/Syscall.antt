-- ===== src/Emu/Syscall.antt =====
-- emu/syscall.go: `DefaultSyscallHandler`. A handler takes the kernel's state, the registers and the
-- memory, and gives what `Handled` of the emulator holds.
pub mod Settings
pub mod Stat
pub mod Paths
pub mod Frame
pub mod Descriptors
pub mod Mappings
pub mod Areas
mod Tests
use m1sim.Base.{
  ℕ, zero, suc, Bool, true, false, not, ◌+◌, ◌-◌, ◌^◌, ◌/◌, ◌*◌, ◌%◌, ◌&&◌, ◌||◌, ◌==◌,
  if◌then◌else◌, ltb, leb, Option, none, some, List, [], ◌∷◌, ◌++◌, length, u32, add64, sub64,
  bit_and, bit_or,
}
use m1sim.Emu.RegFile.{RegFile, read_reg, write_reg}
use m1sim.Emu.Memory.{Memory, read8, read_bytes, write_bytes}
use m1sim.Emu.Emulator.{Handled, SyscallHandler}
use m1sim.Emu.FdTable.{
  FileError, invalid, not_exist, permission, other, Tried, failed, done, FileInfo, Reader, Writer,
  Host, FdTable, open_fd, close_fd, read_fd, write_fd, stat_fd, seek_fd,
}
use m1sim.Emu.Syscall.Settings
use m1sim.Emu.Syscall.Settings.{MmapRegion, Kernel, OpenFlags, page_size}
use m1sim.Emu.Syscall.Stat.{write_stat_to_memory}

-- The loop of `readString`, which ends at a 0 byte, on fuel.
unfoldable pub read_string : ℕ → ℕ → Memory → List ℕ
unfolding read8
read_string zero addr m = []
read_string (suc fuel) addr m =
    let rest = read_string fuel (add64 addr 1) m in
    if read8 addr m == 0 then [] else read8 addr m ∷ rest

-- As many as there are addresses.
abbrev pub string_fuel : ℕ
string_fuel = 2 ^ 64

abbrev pub with_flag : ℕ → ℕ → ℕ → ℕ → ℕ
with_flag linux_flags flag go_flag go_flags =
    if bit_and linux_flags flag == 0 then go_flags else bit_or go_flags go_flag

unfoldable pub linux_to_go_flags : OpenFlags → ℕ → ℕ
linux_to_go_flags host linux_flags =
    let mode = bit_and linux_flags 3 in
    let access =
      if mode == 0
      then host.o_rdonly
      else if mode == 1
      then host.o_wronly
      else if mode == 2
      then host.o_rdwr
      else 0 in
    with_flag linux_flags Settings.o_append host.o_append (
      with_flag linux_flags Settings.o_trunc host.o_trunc
        (with_flag linux_flags Settings.o_creat host.o_create access))

-- `-int64(errno)` as a number of 64 bits.
abbrev pub negative : ℕ → ℕ
negative errno = sub64 0 errno

unfoldable pub set_error : ℕ → RegFile → RegFile
set_error errno r = write_reg 0 (negative errno) r

-- `(length + pageSize - 1) & ^(pageSize - 1)`
unfoldable pub page_align : ℕ → ℕ
page_align len = add64 len (page_size - 1) / page_size * page_size

module _ {F W : Type 0} where
  -- `WriteReg(0, value)` and `return SyscallResult{}`, with the memory m and the state k.
  abbrev pub returning : ℕ → Kernel F W → RegFile → Memory → Handled (Kernel F W)
  returning value k r m = record {
    exited = false;
    exit_code = 0;
    regs = write_reg 0 value r;
    mem = m;
    host = k;
  }

  abbrev pub failing : ℕ → Kernel F W → RegFile → Memory → Handled (Kernel F W)
  failing errno k r m = record {
    exited = false;
    exit_code = 0;
    regs = set_error errno r;
    mem = m;
    host = k;
  }

  unfoldable pub handle_exit : SyscallHandler (Kernel F W)
  handle_exit k r m = record {
    exited = true;
    exit_code = read_reg 0 r;
    regs = r;
    mem = m;
    host = k;
  }

  unfoldable pub handle_unknown : SyscallHandler (Kernel F W)
  handle_unknown k r m = failing Settings.enosys k r m

  unfoldable pub handle_brk : SyscallHandler (Kernel F W)
  handle_brk k r m =
      let addr = read_reg 0 r in
      if addr == 0 || ltb addr k.program_break
      then returning k.program_break k r m
      else returning addr (record k { program_break = addr }) r m

  unfoldable pub handle_mmap : SyscallHandler (Kernel F W)
  unfolding page_align
  handle_mmap k r m =
      let addr = read_reg 0 r in
      let len = read_reg 1 r in
      let prot = read_reg 2 r in
      let flags = read_reg 3 r in
      let aligned = page_align len in
      let is_fixed = not (bit_and flags Settings.map_fixed == 0) in
      let mapped = if is_fixed then addr / page_size * page_size else k.next_mmap_addr in
      let region : MmapRegion = record {
        addr = mapped;
        len = aligned;
        prot = prot;
        flags = flags;
      } in
      if len == 0
      then failing Settings.einval k r m
      else if bit_and flags Settings.map_anonymous == 0
      then failing Settings.enosys k r m
      else if is_fixed && addr == 0
      then failing Settings.einval k r m
      else returning mapped
          (record k {
            next_mmap_addr = if is_fixed then k.next_mmap_addr else add64 k.next_mmap_addr aligned;
            mmap_regions = k.mmap_regions ++ region ∷ [];
          })
          r m

  unfoldable pub handle_mprotect : SyscallHandler (Kernel F W)
  handle_mprotect k r m = returning 0 k r m

  -- The end of `handleRead` and of `handleWrite`.
  unfoldable pub finish_read :
      List ℕ → Option FileError → ℕ → Kernel F W → RegFile → Memory → Handled (Kernel F W)
  finish_read bytes err buf_ptr k r m =
      let stored = returning (length bytes) k r (write_bytes 0 buf_ptr bytes m) in
      elim err [
        | none ↦ stored
        | some e ↦
            if length bytes == 0
            then elim e [ invalid ↦ failing Settings.ebadf k r m | _ ↦ returning 0 k r m ]
            else stored
      ]

  unfoldable pub finish_write :
      ℕ → Option FileError → Kernel F W → RegFile → Memory → Handled (Kernel F W)
  finish_write n err k r m = elim err [
    | none ↦ returning n k r m
    | some e ↦ elim e [ invalid ↦ failing Settings.ebadf k r m | _ ↦ failing Settings.eio k r m ]
  ]

module _ {F W : Type 0} (host : Host F W) (open_flags : OpenFlags) where
  unfoldable pub handle_read : SyscallHandler (Kernel F W)
  unfolding finish_read
  handle_read k r m =
      let fd = read_reg 0 r in
      let count = read_reg 2 r in
      let ended : Reader W → Handled (Kernel F W) = λ reader.
        let (bytes, err, w) = reader count k.world in
        finish_read bytes err (read_reg 1 r) (record k { world = w }) r m in
      if fd == 0
      then elim k.stdin [ none ↦ returning 0 k r m | some reader ↦ ended reader ]
      else ended (read_fd host fd k.fd_table)

  unfoldable pub handle_write : SyscallHandler (Kernel F W)
  unfolding finish_write
  handle_write k r m =
      let fd = read_reg 0 r in
      let buf = read_bytes (read_reg 2 r) 0 (read_reg 1 r) m in
      let writer =
        if fd == 1 then k.stdout else if fd == 2 then k.stderr else write_fd host fd k.fd_table in
      let (n, err, w) = writer buf k.world in finish_write n err (record k { world = w }) r m

  unfoldable pub handle_close : SyscallHandler (Kernel F W)
  handle_close k r m =
      let (err, t, w) = close_fd host (read_reg 0 r) k.fd_table k.world in
      let k' = record k { fd_table = t; world = w } in
      elim err [ none ↦ returning 0 k' r m | some e ↦ failing Settings.ebadf k' r m ]

  unfoldable pub handle_openat : SyscallHandler (Kernel F W)
  unfolding linux_to_go_flags
  handle_openat k r m =
      let pathname = read_string string_fuel (read_reg 1 r) m in
      let (opened, t, w) =
        open_fd host pathname (linux_to_go_flags open_flags (read_reg 2 r)) (u32 (read_reg 3 r))
          k.fd_table k.world in
      let k' = record k { fd_table = t; world = w } in
      if read_reg 0 r == Settings.at_fdcwd
      then elim opened [
        | done fd ↦ returning fd k' r m
        | failed e ↦ elim e [
          | not_exist ↦ failing Settings.enoent k' r m
          | permission ↦ failing Settings.eacces k' r m
          | _ ↦ failing Settings.eio k' r m
        ]
      ]
      else failing Settings.ebadf k r m

  unfoldable pub handle_lseek : SyscallHandler (Kernel F W)
  handle_lseek k r m =
      let fd = read_reg 0 r in
      let whence = read_reg 2 r in
      let (sought, w) = seek_fd host fd (read_reg 1 r) whence k.fd_table k.world in
      let k' = record k { world = w } in
      if leb fd 2
      then failing Settings.espipe k r m
      else if leb (2 ^ 63) whence || ltb Settings.seek_end whence
      then failing Settings.einval k r m
      else elim sought [
        | failed e ↦ failing Settings.ebadf k' r m
        | done pos ↦ returning pos k' r m
      ]

  unfoldable pub handle_fstat : SyscallHandler (Kernel F W)
  handle_fstat k r m = elim (stat_fd host (read_reg 0 r) k.fd_table k.world) [
    | failed e ↦ failing Settings.ebadf k r m
    | done info ↦ returning 0 k r (write_stat_to_memory (read_reg 1 r) info m)
  ]

  -- `Handle`
  unfoldable pub handle : SyscallHandler (Kernel F W)
  handle k r m =
      let n = read_reg 8 r in
      if n == Settings.syscall_openat
      then handle_openat k r m
      else if n == Settings.syscall_close
      then handle_close k r m
      else if n == Settings.syscall_lseek
      then handle_lseek k r m
      else if n == Settings.syscall_read
      then handle_read k r m
      else if n == Settings.syscall_write
      then handle_write k r m
      else if n == Settings.syscall_fstat
      then handle_fstat k r m
      else if n == Settings.syscall_exit
      then handle_exit k r m
      else if n == Settings.syscall_brk
      then handle_brk k r m
      else if n == Settings.syscall_mmap
      then handle_mmap k r m
      else if n == Settings.syscall_mprotect
      then handle_mprotect k r m
      else handle_unknown k r m
