-- ===== src/Emu/FdTable.antt =====
-- emu/fdtable.go: the file descriptors. The files of the host are a parameter: F is the type of their
-- handles and W the state of the host that a call may change. The mutex is left out, since one
-- goroutine runs the calls.
pub mod Descriptors
use m1sim.Base.{
  ℕ, Bool, true, false, ◌+◌, ◌-◌, ◌^◌, ◌==◌, leb, if◌then◌else◌, Option, none, some, List, [], ◌∷◌,
  add64,
}
use m1sim.Emu.RegFile.{update}

-- What the code tells apart of an error: os.ErrInvalid itself, those of `os.IsNotExist` and of
-- `os.IsPermission`, and the rest.
pub data FileError : Type 0 where
  invalid : FileError
  not_exist : FileError
  permission : FileError
  other : FileError

-- A value, or an error with no value.
pub data Tried (A : Type 0) : Type 0 where
  failed : FileError → Tried A
  done : A → Tried A

-- `os.FileInfo`; the size and the seconds are int64 patterns.
pub record FileInfo : Type 0 where
  pub size : ℕ
  pub mode : ℕ
  pub mod_time_unix : ℕ
  pub mod_time_nanosecond : ℕ
  pub is_dir : Bool

-- `Read` of n bytes gives those that it stored, `Write` gives their number, each with an error or nil.
abbrev pub Reader : Type 0 → Type 0
Reader W = ℕ → W → List ℕ × Option FileError × W

abbrev pub Writer : Type 0 → Type 0
Writer W = List ℕ → W → ℕ × Option FileError × W

-- The functions of the package os on files.
pub record Host (F W : Type 0) : Type 0 where
  pub open_file : List ℕ → ℕ → ℕ → W → Tried F × W
  pub close : F → W → Option FileError × W
  pub read : F → Reader W
  pub write : F → Writer W
  pub stat : F → W → Tried FileInfo
  pub seek : F → ℕ → ℕ → W → Tried ℕ × W

pub record FileDescriptor (F : Type 0) : Type 0 where
  pub host_file : Option F
  pub path : List ℕ
  pub flags : ℕ
  pub is_open : Bool

pub record FdTable (F : Type 0) : Type 0 where
  pub fds : ℕ → Option (FileDescriptor F)
  pub next_fd : ℕ

-- The bytes of "stdin", "stdout" and "stderr".
abbrev pub stdin_path : List ℕ
stdin_path = 0x73 ∷ 0x74 ∷ 0x64 ∷ 0x69 ∷ 0x6E ∷ []

abbrev pub stdout_path : List ℕ
stdout_path = 0x73 ∷ 0x74 ∷ 0x64 ∷ 0x6F ∷ 0x75 ∷ 0x74 ∷ []

abbrev pub stderr_path : List ℕ
stderr_path = 0x73 ∷ 0x74 ∷ 0x64 ∷ 0x65 ∷ 0x72 ∷ 0x72 ∷ []

abbrev pub mode_char_device : ℕ
mode_char_device = 2 ^ 21

-- `stdioFileInfo`: `time.Time{}` is 62135596800 seconds before 1970.
abbrev pub stdio_file_info : FileInfo
stdio_file_info = record {
  size = 0;
  mode = mode_char_device + 0x1B6;
  mod_time_unix = 2 ^ 64 - 62135596800;
  mod_time_nanosecond = 0;
  is_dir = false;
}

module _ {F : Type 0} where
  abbrev standard : List ℕ → Option (FileDescriptor F)
  standard path = some (record { host_file = none; path = path; flags = 0; is_open = true })

  unfoldable pub new_fd_table : FdTable F
  new_fd_table = record {
    fds =
        update (update (update (λ fd. none) 0 (standard stdin_path)) 1 (standard stdout_path)) 2
          (standard stderr_path);
    next_fd = 3;
  }

  -- `entry, exists := t.fds[fd]; if !exists || !entry.IsOpen`
  unfoldable pub get : ℕ → FdTable F → Option (FileDescriptor F)
  get fd t = elim (t.fds fd) [
    | none ↦ none
    | some entry ↦ if entry.is_open then some entry else none
  ]

  unfoldable pub is_open : ℕ → FdTable F → Bool
  is_open fd t = elim (t.fds fd) [ none ↦ false | some entry ↦ entry.is_open ]

  -- The host's file behind an open descriptor.
  unfoldable pub host_file_of : ℕ → FdTable F → Option F
  unfolding get
  host_file_of fd t = elim (get fd t) [ none ↦ none | some entry ↦ entry.host_file ]

module _ {F W : Type 0} (host : Host F W) where
  unfoldable pub open_fd : List ℕ → ℕ → ℕ → FdTable F → W → Tried ℕ × FdTable F × W
  open_fd path flags mode t w =
      let (opened, w') = host.open_file path flags mode w in
      elim opened [
        | failed err ↦ (failed err, t, w')
        | done file ↦
            let fd = t.next_fd in
            let entry : FileDescriptor F = record {
              host_file = some file;
              path = path;
              flags = flags;
              is_open = true;
            } in
            (done fd, record { fds = update t.fds fd (some entry); next_fd = add64 fd 1 }, w')
      ]

  -- `entry.HostFile = nil; entry.IsOpen = false`
  abbrev closed : FileDescriptor F → FileDescriptor F
  closed entry = record entry { host_file = none; is_open = false }

  -- The entry is changed behind its pointer, which the map keeps.
  unfoldable pub close_fd : ℕ → FdTable F → W → Option FileError × FdTable F × W
  unfolding get
  close_fd fd t w = elim (get fd t) [
    | none ↦ (some invalid, t, w)
    | some entry ↦
        if leb fd 2
        then (none, record t { fds = update t.fds fd (some (record entry { is_open = false })) }, w)
        else let t' = record t { fds = update t.fds fd (some (closed entry)) } in
          elim entry.host_file [
            | none ↦ (none, t', w)
            | some file ↦
                let (err, w') = host.close file w in
                elim err [ none ↦ (none, t', w') | some e ↦ (some e, t, w') ]
          ]
  ]

  unfoldable pub read_fd : ℕ → FdTable F → Reader W
  unfolding host_file_of
  read_fd fd t n w = if fd == 0 then ([], some invalid, w) else elim (host_file_of fd t) [
    | none ↦ ([], some invalid, w)
    | some file ↦ host.read file n w
  ]

  unfoldable pub write_fd : ℕ → FdTable F → Writer W
  unfolding host_file_of
  write_fd fd t bytes w = if leb fd 2 then (0, some invalid, w) else elim (host_file_of fd t) [
    | none ↦ (0, some invalid, w)
    | some file ↦ host.write file bytes w
  ]

  unfoldable pub stat_fd : ℕ → FdTable F → W → Tried FileInfo
  unfolding get
  stat_fd fd t w = elim (get fd t) [
    | none ↦ failed invalid
    | some entry ↦
        if leb fd 2
        then done stdio_file_info
        else elim entry.host_file [ none ↦ failed invalid | some file ↦ host.stat file w ]
  ]

  unfoldable pub seek_fd : ℕ → ℕ → ℕ → FdTable F → W → Tried ℕ × W
  unfolding host_file_of
  seek_fd fd offset whence t w =
      if leb fd 2 then (failed invalid, w) else elim (host_file_of fd t) [
        | none ↦ (failed invalid, w)
        | some file ↦ host.seek file offset whence w
      ]
