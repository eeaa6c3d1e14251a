-- ===== src/Emu/Exec/MemoryOps/Addressing.antt =====
-- The addresses of decoded loads and stores, and what becomes of the base register.
use m1sim.Base.{ℕ, Bool, ◌+◌, ◌-◌, ◌%◌, ◌^◌, ◌≡◌, ◌==◌, ltb, if◌then◌else◌, arith, field, ◌||◌, ap}
use m1sim.Insts.Memory.{decode_load_store_reg_indexed}
use m1sim.Insts.Decoder.{decode}
use m1sim.Insts.Encoding.Signs.{sign_fill_9}
use m1sim.Insts.Encoding.LoadStores.{decode_load_store_reg_indexed_class}
use m1sim.Emu.RegFile.{RegFile, read_reg, write_reg}
use m1sim.Emu.Exec.MemoryOps.{Space, base_of, address_of, write_back, access, execute_load_store}

-- A 64-bit address moved by a 9-bit offset in two's complement, -256 to 255.
abbrev pub moved : ℕ → ℕ → ℕ
moved base imm9 =
    if ltb imm9 256 then (base + imm9) % 2 ^ 64 else (base + 2 ^ 64 - (512 - imm9)) % 2 ^ 64

-- The base register n gets a value, where 31 is SP.
abbrev pub rebased : ℕ → ℕ → RegFile → RegFile
rebased n value r = if n == 31 then record r { sp = value } else write_reg n value r

module _ (w : ℕ) (s : Space) (h : field 24 6 w ≡ 0b111000) (k : field 21 1 w ≡ 0) where
  abbrev base : ℕ
  base = if field 5 5 w == 31 then s.regs.sp else read_reg (field 5 5 w) s.regs

  -- The address of the access: before a post-indexed one moves the base, after a pre-indexed one.
  abbrev at : ℕ
  at =
      if field 10 2 w == 0b11
      then moved base (field 12 9 w)
      else if field 10 2 w == 0b01
      then base
      else base % 2 ^ 64

  abbrev moves : Bool
  moves = field 10 2 w == 0b11 || field 10 2 w == 0b01

  address_of-decode : address_of (decode w) s.regs ≡ at
  unfolding address_of base_of decode_load_store_reg_indexed
  address_of-decode =
      rw (decode_load_store_reg_indexed_class w h k)
        (ground (arith, sign_fill_9 (field 12 9 w) (omega arith)))

  write_back-decode :
      (r : RegFile)
      → write_back (decode w) (base_of (decode w) s.regs) r
        ≡ (if moves then rebased (field 5 5 w) (moved base (field 12 9 w)) r else r)
  unfolding write_back base_of decode_load_store_reg_indexed
  write_back-decode r =
      rw (decode_load_store_reg_indexed_class w h k)
        (ground (arith, sign_fill_9 (field 12 9 w) (omega arith)))

  -- The execution of a decoded load or store with a 9-bit offset (bits 29 to 24 are 111000 and bit
  -- 21 is 0) accesses the base in Xn, or in SP for n = 31, moved by the offset, which is -256 to
  -- 255 in two's complement, for pre-indexing (mode 11), and the base itself for post-indexing
  -- (mode 01), and in both leaves the moved base, wrapped around to 64 bits, in Xn or SP after the
  -- access; in the two other modes it accesses the base, wrapped around to 64 bits, whatever the
  -- offset is, and moves nothing.
  pub execute_load_store-decode :
      let accessed = access (decode w) at s in
      execute_load_store (decode w) s ≡ record accessed {
        regs =
            if moves
            then rebased (field 5 5 w) (moved base (field 12 9 w)) accessed.regs
            else accessed.regs;
      }
  unfolding execute_load_store
  execute_load_store-decode =
      let accessed = access (decode w) at s in
      rw address_of-decode
        (ap (λ (r : RegFile). record accessed { regs = r }) (write_back-decode accessed.regs))
