-- ===== src/Emu/RegFile.antt =====
-- emu/regfile.go: the integer registers, the stack pointer, the program counter and the flags.
use m1sim.Base.{ℕ, Bool, false, ◌==◌, if◌then◌else◌, u32}

pub record Pstate : Type 0 where
  pub n : Bool
  pub z : Bool
  pub c : Bool
  pub v : Bool

-- `X [32]uint64` is a function of the register number. Go panics on a number from 32 on, which here
-- is one more register; `Insts.Bounds` is about the numbers that the decoder gives.
pub record RegFile : Type 0 where
  pub x : ℕ → ℕ
  pub sp : ℕ
  pub pc : ℕ
  pub pstate : Pstate

abbrev pub no_flags : Pstate
no_flags = record { n = false; z = false; c = false; v = false }

-- `&RegFile{}`
abbrev pub zero_regs : RegFile
zero_regs = record { x = λ reg. 0; sp = 0; pc = 0; pstate = no_flags }

abbrev pub update {ℓ} : {A : Type ℓ} → (ℕ → A) → ℕ → A → ℕ → A
update f k v j = if j == k then v else f j

unfoldable pub read_reg : ℕ → RegFile → ℕ
read_reg reg r = if reg == 31 then 0 else r.x reg

unfoldable pub read_reg_or_sp : ℕ → RegFile → ℕ
read_reg_or_sp reg r = if reg == 31 then r.sp else r.x reg

unfoldable pub write_reg_or_sp : ℕ → ℕ → RegFile → RegFile
write_reg_or_sp reg value r =
    if reg == 31 then record r { sp = value } else record r { x = update r.x reg value }

unfoldable pub write_reg : ℕ → ℕ → RegFile → RegFile
write_reg reg value r = if reg == 31 then r else record r { x = update r.x reg value }

unfoldable pub read_reg32 : ℕ → RegFile → ℕ
unfolding read_reg
read_reg32 reg r = u32 (read_reg reg r)

unfoldable pub write_reg32 : ℕ → ℕ → RegFile → RegFile
unfolding write_reg
write_reg32 reg value r = write_reg reg value r
