-- ===== src/Emu/Syscall/Stat.antt =====
-- emu/syscall.go: the stat structure that `handleFstat` writes to memory.
use m1sim.Base.{
  ℕ, Bool, true, false, ◌/◌, ◌^◌, ◌==◌, if◌then◌else◌, ltb, bit_and, bit_or, add64, sub64,
}
use m1sim.Emu.FdTable.{FileInfo, mode_char_device}
use m1sim.Emu.Memory.{Memory, write32, write64}

-- The file types of Linux, and the bits of os.FileMode.
abbrev pub s_ifreg : ℕ
s_ifreg = 0x8000

abbrev pub s_ifdir : ℕ
s_ifdir = 0x4000

abbrev pub s_ifchr : ℕ
s_ifchr = 0x2000

abbrev pub s_ififo : ℕ
s_ififo = 0x1000

abbrev pub s_iflnk : ℕ
s_iflnk = 0xA000

abbrev pub s_ifsock : ℕ
s_ifsock = 0xC000

abbrev pub mode_symlink : ℕ
mode_symlink = 2 ^ 27

abbrev pub mode_named_pipe : ℕ
mode_named_pipe = 2 ^ 25

abbrev pub mode_socket : ℕ
mode_socket = 2 ^ 24

-- `info.Mode()&bit != 0`
abbrev pub has_mode : ℕ → FileInfo → Bool
has_mode bit info = if bit_and info.mode bit == 0 then false else true

abbrev pub file_type : FileInfo → ℕ
file_type info =
    if info.is_dir
    then s_ifdir
    else if has_mode mode_symlink info
    then s_iflnk
    else if has_mode mode_char_device info
    then s_ifchr
    else if has_mode mode_named_pipe info
    then s_ififo
    else if has_mode mode_socket info
    then s_ifsock
    else s_ifreg

unfoldable pub file_info_to_linux_mode : FileInfo → ℕ
file_info_to_linux_mode info = bit_or (bit_and info.mode 0x1FF) (file_type info)

-- `(size + 511) / 512` on int64 patterns: Go's division rounds towards 0.
unfoldable pub stat_blocks : ℕ → ℕ
stat_blocks size =
    let n = add64 size 511 in if ltb n (2 ^ 63) then n / 512 else sub64 0 (sub64 0 n / 512)

unfoldable pub write_stat_to_memory : ℕ → FileInfo → Memory → Memory
unfolding file_info_to_linux_mode stat_blocks
write_stat_to_memory addr info m0 =
    let m1 = write64 (add64 addr 0) 0 m0 in
    let m2 = write64 (add64 addr 8) 0 m1 in
    let m3 = write32 (add64 addr 16) (file_info_to_linux_mode info) m2 in
    let m4 = write32 (add64 addr 20) 1 m3 in
    let m5 = write32 (add64 addr 24) 0 m4 in
    let m6 = write32 (add64 addr 28) 0 m5 in
    let m7 = write64 (add64 addr 32) 0 m6 in
    let m8 = write64 (add64 addr 40) 0 m7 in
    let m9 = write64 (add64 addr 48) info.size m8 in
    let m10 = write32 (add64 addr 56) 4096 m9 in
    let m11 = write32 (add64 addr 60) 0 m10 in
    let m12 = write64 (add64 addr 64) (stat_blocks info.size) m11 in
    let m13 = write64 (add64 addr 72) info.mod_time_unix m12 in
    let m14 = write64 (add64 addr 80) info.mod_time_nanosecond m13 in
    let m15 = write64 (add64 addr 88) info.mod_time_unix m14 in
    let m16 = write64 (add64 addr 96) info.mod_time_nanosecond m15 in
    let m17 = write64 (add64 addr 104) info.mod_time_unix m16 in
    write64 (add64 addr 112) info.mod_time_nanosecond m17
