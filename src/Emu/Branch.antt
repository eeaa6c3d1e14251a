-- ===== src/Emu/Branch.antt =====
-- emu/branch.go: the branch unit and the condition codes.
pub mod Conditions
use m1sim.Base.{ℕ, Bool, true, false, not, ◌&&◌, ◌||◌, ◌==◌, same, if◌then◌else◌, add64}
use m1sim.Emu.RegFile.{Pstate, RegFile, read_reg, write_reg}

-- `offset` is an int64 pattern.
unfoldable pub b : ℕ → RegFile → RegFile
b offset r = record r { pc = add64 r.pc offset }

unfoldable pub bl : ℕ → RegFile → RegFile
unfolding write_reg
bl offset r =
    let linked = write_reg 30 (add64 r.pc 4) r in record linked { pc = add64 linked.pc offset }

unfoldable pub br : ℕ → RegFile → RegFile
unfolding read_reg
br rn r = record r { pc = read_reg rn r }

unfoldable pub blr : ℕ → RegFile → RegFile
unfolding read_reg write_reg
blr rn r =
    let target = read_reg rn r in
    let linked = write_reg 30 (add64 r.pc 4) r in record linked { pc = target }

unfoldable pub ret : ℕ → RegFile → RegFile
unfolding read_reg
ret rn r = record r { pc = read_reg rn r }

-- `cond` is a uint8; the conditions are 0b0000 (EQ) to 0b1111 (NV).
unfoldable pub check_condition : ℕ → Pstate → Bool
check_condition cond p =
    if cond == 0b0000
    then p.z
    else if cond == 0b0001
    then not p.z
    else if cond == 0b0010
    then p.c
    else if cond == 0b0011
    then not p.c
    else if cond == 0b0100
    then p.n
    else if cond == 0b0101
    then not p.n
    else if cond == 0b0110
    then p.v
    else if cond == 0b0111
    then not p.v
    else if cond == 0b1000
    then p.c && not p.z
    else if cond == 0b1001
    then not p.c || p.z
    else if cond == 0b1010
    then same p.n p.v
    else if cond == 0b1011
    then not (same p.n p.v)
    else if cond == 0b1100
    then not p.z && same p.n p.v
    else if cond == 0b1101
    then p.z || not (same p.n p.v)
    else if cond == 0b1110 || cond == 0b1111
    then true
    else false

unfoldable pub b_cond : ℕ → ℕ → RegFile → RegFile
unfolding check_condition
b_cond offset cond r =
    if check_condition cond r.pstate then record r { pc = add64 r.pc offset } else r
