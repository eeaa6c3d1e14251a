-- ===== src/Emu/Syscall/Tests.antt =====
-- emu/syscall.go and emu/fdtable.go on a host with one file of the byte 65.
use m1sim.Base.{
  ℕ, true, ◌≡◌, ◌≤◌, ◌+◌, ◌-◌, ◌^◌, ◌==◌, if◌then◌else◌, none, some, [], ◌∷◌, refl, arith,
}
use m1sim.Emu.RegFile.{RegFile, zero_regs, read_reg}
use m1sim.Emu.Memory.{Memory, empty, read_bytes}
use m1sim.Emu.FdTable.{done, Host, FdTable, new_fd_table, get, open_fd, close_fd, stdio_file_info}
use m1sim.Emu.FdTable.Descriptors.{
  IsValid, new_fd_table-IsValid, open_fd-Opened, Opened, close_fd-Closed, Closed,
}
use m1sim.Emu.Syscall.Settings.{Kernel, OpenFlags, new_kernel}
use m1sim.Emu.Syscall.{failing, read_string, handle, handle_brk}
use m1sim.Emu.Syscall.Frame.{IsKept, handle-IsKept}
use m1sim.Emu.Syscall.Paths.{read_string_lem}
use m1sim.Emu.Syscall.Descriptors.{handle-unopened, handle-IsValid}
use m1sim.Emu.Syscall.Mappings.{IsMapped}
use m1sim.Emu.Syscall.Areas.{handle-heap, handle-IsMapped}

abbrev one_file : Host ℕ ℕ
one_file = record {
  open_file = λ path flags mode w. (done 7, w + 1);
  close = λ f w. (none, w);
  read = λ f n w. (65 ∷ [], none, w);
  write = λ f bytes w. (1, none, w + 1);
  stat = λ f w. done stdio_file_info;
  seek = λ f offset whence w. (done offset, w);
}

abbrev linux : OpenFlags
linux = record {
  o_rdonly = 0;
  o_wronly = 1;
  o_rdwr = 2;
  o_create = 0x40;
  o_trunc = 0x200;
  o_append = 0x400;
}

abbrev kernel : Kernel ℕ ℕ
kernel = new_kernel (λ bytes w. (0, none, w)) (λ bytes w. (0, none, w)) 0

-- The registers of a call: its number in X8, and X0 to X3.
abbrev calling : ℕ → ℕ → ℕ → ℕ → ℕ → RegFile
calling n x0 x1 x2 x3 = record zero_regs {
  x = λ j.
      if j == 8
      then n
      else if j == 0
      then x0
      else if j == 1
      then x1
      else if j == 2
      then x2
      else if j == 3
      then x3
      else 0;
}

-- mmap of 5000 bytes, anonymous.
abbrev an_mmap : RegFile
an_mmap = calling 222 0 5000 3 0x22

abbrev a_close : RegFile
a_close = calling 57 9 0 0 0

abbrev an_openat : RegFile
an_openat = calling 56 (2 ^ 64 - 100) 0 0 0

kernel-IsMapped : IsMapped kernel
kernel-IsMapped = record { aligned = refl; laid_out = refl }

handle-IsMapped_example : IsMapped (handle one_file linux kernel an_mmap empty).host
handle-IsMapped_example =
    handle-IsMapped one_file linux kernel an_mmap empty kernel-IsMapped
      (λ h. unfold read_reg in omega arith)

handle-heap_example :
    (kernel.program_break
      ≤ (handle one_file linux kernel (calling 214 0x10001000 0 0 0) empty).host.program_break)
    × (read_reg 0 (handle_brk kernel (calling 214 0x10001000 0 0 0) empty).regs
        ≡ (handle_brk kernel (calling 214 0x10001000 0 0 0) empty).host.program_break)
handle-heap_example = handle-heap one_file linux kernel (calling 214 0x10001000 0 0 0) empty

handle-IsKept_example :
    IsKept one_file linux kernel an_mmap empty 5
      (λ e. absurd (omega arith))
      (handle one_file linux kernel an_mmap empty).regs
handle-IsKept_example =
    handle-IsKept one_file linux kernel an_mmap empty 5 (λ e. absurd (omega arith))

handle-unopened_example :
    handle one_file linux kernel a_close empty ≡ failing 9 kernel a_close empty
unfolding get new_fd_table read_reg
handle-unopened_example =
    handle-unopened one_file linux kernel a_close empty refl (omega arith) refl

handle-IsValid_example : IsValid (handle one_file linux kernel an_openat empty).host.fd_table
unfolding new_fd_table
handle-IsValid_example =
    handle-IsValid one_file linux kernel an_openat empty (new_fd_table-IsValid ℕ) (omega arith)

open_fd-Opened_example :
    Opened one_file new_fd_table
      (new_fd_table-IsValid ℕ)
      0
      (65 ∷ [])
      0
      7
      (open_fd one_file (65 ∷ []) 0 0 new_fd_table 0)
      1
unfolding new_fd_table
open_fd-Opened_example =
    open_fd-Opened one_file new_fd_table (new_fd_table-IsValid ℕ) 0 (65 ∷ []) 0 0 7 1 (omega arith)
      refl

-- The table after that `Open`.
abbrev opened_table : FdTable ℕ
opened_table = (open_fd one_file (65 ∷ []) 0 0 new_fd_table 0).1

opened_table-IsValid : IsValid opened_table
unfolding new_fd_table
opened_table-IsValid =
    (open_fd-Opened one_file new_fd_table (new_fd_table-IsValid ℕ) 0 (65 ∷ []) 0 0 7 1 (omega arith)
      refl).5

close_fd-Closed_example :
    Closed one_file opened_table opened_table-IsValid 1 3 (close_fd one_file 3 opened_table 1)
unfolding get open_fd new_fd_table
close_fd-Closed_example =
    close_fd-Closed one_file opened_table opened_table-IsValid 1 3
      (record { host_file = some 7; path = 65 ∷ []; flags = 0; is_open = true }) 7 1 refl
      (omega arith) refl refl

abbrev a_path : Memory
a_path addr = if addr == 100 then 65 else 0

-- "A" at 100.
read_string_lem_example : read_string 20 100 a_path ≡ read_bytes 1 0 100 a_path
read_string_lem_example =
    read_string_lem 20 1 100 a_path (omega arith) (omega arith) (λ i h. ground arith) refl
