-- ===== src/Emu/Syscall/Settings.antt =====
-- emu/syscall.go: the constants, the regions of mmap and the state of the default handler.
use m1sim.Base.{ℕ, ◌-◌, ◌^◌, Option, none, some, List, []}
use m1sim.Emu.FdTable.{FdTable, Reader, Writer, new_fd_table}

-- The system calls' numbers.
abbrev pub syscall_openat : ℕ
syscall_openat = 56

abbrev pub syscall_close : ℕ
syscall_close = 57

abbrev pub syscall_lseek : ℕ
syscall_lseek = 62

abbrev pub syscall_read : ℕ
syscall_read = 63

abbrev pub syscall_write : ℕ
syscall_write = 64

abbrev pub syscall_fstat : ℕ
syscall_fstat = 80

abbrev pub syscall_exit : ℕ
syscall_exit = 93

abbrev pub syscall_brk : ℕ
syscall_brk = 214

abbrev pub syscall_mmap : ℕ
syscall_mmap = 222

abbrev pub syscall_mprotect : ℕ
syscall_mprotect = 226

-- The error numbers.
abbrev pub enoent : ℕ
enoent = 2

abbrev pub eio : ℕ
eio = 5

abbrev pub ebadf : ℕ
ebadf = 9

abbrev pub eacces : ℕ
eacces = 13

abbrev pub einval : ℕ
einval = 22

abbrev pub espipe : ℕ
espipe = 29

abbrev pub enosys : ℕ
enosys = 38

abbrev pub map_fixed : ℕ
map_fixed = 0x10

abbrev pub map_anonymous : ℕ
map_anonymous = 0x20

abbrev pub o_creat : ℕ
o_creat = 0x40

abbrev pub o_trunc : ℕ
o_trunc = 0x200

abbrev pub o_append : ℕ
o_append = 0x400

-- -100 as an int64 pattern.
abbrev pub at_fdcwd : ℕ
at_fdcwd = 2 ^ 64 - 100

abbrev pub seek_end : ℕ
seek_end = 2

abbrev pub page_size : ℕ
page_size = 4096

-- `prot` and `flags` are int patterns of 64 bits.
pub record MmapRegion : Type 0 where
  pub addr : ℕ
  pub len : ℕ
  pub prot : ℕ
  pub flags : ℕ

-- The state of `DefaultSyscallHandler` beyond the registers and the memory; `world` is the host's.
pub record Kernel (F W : Type 0) : Type 0 where
  pub fd_table : FdTable F
  pub stdin : Option (Reader W)
  pub stdout : Writer W
  pub stderr : Writer W
  pub program_break : ℕ
  pub next_mmap_addr : ℕ
  pub mmap_regions : List MmapRegion
  pub world : W

abbrev pub default_program_break : ℕ
default_program_break = 0x10000000

abbrev pub default_mmap_base : ℕ
default_mmap_base = 0x40000000

-- `NewDefaultSyscallHandler`
abbrev pub new_kernel : {F W : Type 0} → Writer W → Writer W → W → Kernel F W
new_kernel stdout stderr world = record {
  fd_table = new_fd_table;
  stdin = none;
  stdout = stdout;
  stderr = stderr;
  program_break = default_program_break;
  next_mmap_addr = default_mmap_base;
  mmap_regions = [];
  world = world;
}

-- The setters.
abbrev pub set_fd_table : {F W : Type 0} → FdTable F → Kernel F W → Kernel F W
set_fd_table t k = record k { fd_table = t }

abbrev pub set_stdin : {F W : Type 0} → Reader W → Kernel F W → Kernel F W
set_stdin reader k = record k { stdin = some reader }

abbrev pub set_program_break : {F W : Type 0} → ℕ → Kernel F W → Kernel F W
set_program_break addr k = record k { program_break = addr }

-- The flags of `os.OpenFile`, which differ between hosts.
pub record OpenFlags : Type 0 where
  pub o_rdonly : ℕ
  pub o_wronly : ℕ
  pub o_rdwr : ℕ
  pub o_create : ℕ
  pub o_trunc : ℕ
  pub o_append : ℕ
