-- ===== src/Insts/Branches.antt =====
-- insts/decoder.go: branches, PC-relative addresses, exceptions and system registers. A narrowing
-- such as `uint8(rn)` is left out where the field has fewer bits.
use m1sim.Base.{ℕ, Bool, true, ◌*◌, ◌-◌, ◌%◌, ◌^◌, ◌==◌, ltb, if◌then◌else◌}
use m1sim.Base.{field, shr, shl64, not64, bit_or}
use m1sim.Insts.{Op, Format, Instruction}

-- `offset := int64(imm); if imm >> (n-1) == 1 { offset |= ^int64(1<<n - 1) }`.
unfoldable pub sign_fill : ℕ → ℕ → ℕ
sign_fill n imm = if shr imm (n - 1) == 1 then bit_or imm (not64 (2 ^ n - 1)) else imm

-- `offset *= k` on an int64 pattern.
abbrev pub scaled : ℕ → ℕ → ℕ
scaled k offset = (offset * k) % 2 ^ 64

-- `offset >= 0` on an int64 pattern.
abbrev pub nonneg : ℕ → Bool
nonneg offset = ltb offset (2 ^ 63)

unfoldable pub decode_branch_imm : ℕ → Instruction → Instruction
unfolding sign_fill
decode_branch_imm word inst =
    let op = field 31 1 word in
    let offset = scaled 4 (sign_fill 26 (field 0 26 word)) in
    record inst {
      format = Format.branch;
      branch_offset = offset;
      imm = if nonneg offset then offset else inst.imm;
      op = if op == 0 then Op.b else Op.bl;
    }

unfoldable pub decode_branch_cond : ℕ → Instruction → Instruction
unfolding sign_fill
decode_branch_cond word inst =
    let offset = scaled 4 (sign_fill 19 (field 5 19 word)) in
    record inst {
      format = Format.branch_cond;
      op = Op.b_cond;
      branch_offset = offset;
      imm = if nonneg offset then offset else inst.imm;
      cond = field 0 4 word;
    }

unfoldable pub decode_branch_reg : ℕ → Instruction → Instruction
decode_branch_reg word inst =
    let op = field 21 2 word in
    record inst {
      format = Format.branch_reg;
      rn = field 5 5 word;
      op =
          if op == 0b00
          then Op.br
          else if op == 0b01
          then Op.blr
          else if op == 0b10
          then Op.ret
          else Op.unknown;
    }

unfoldable pub decode_test_branch : ℕ → Instruction → Instruction
unfolding sign_fill
decode_test_branch word inst =
    let b5 = field 31 1 word in
    let op = field 24 1 word in
    let b40 = field 19 5 word in
    record inst {
      format = Format.test_branch;
      rd = field 0 5 word;
      is_64bit = b5 == 1;
      imm = bit_or (b5 * 2 ^ 5) b40;
      branch_offset = scaled 4 (sign_fill 14 (field 5 14 word));
      op = if op == 0 then Op.tbz else Op.tbnz;
    }

unfoldable pub decode_compare_branch : ℕ → Instruction → Instruction
unfolding sign_fill
decode_compare_branch word inst =
    let sf = field 31 1 word in
    let op = field 24 1 word in
    record inst {
      format = Format.compare_branch;
      rd = field 0 5 word;
      is_64bit = sf == 1;
      branch_offset = scaled 4 (sign_fill 19 (field 5 19 word));
      op = if op == 0 then Op.cbz else Op.cbnz;
    }

unfoldable pub decode_pc_rel_addressing : ℕ → Instruction → Instruction
unfolding sign_fill
decode_pc_rel_addressing word inst =
    let op = field 31 1 word in
    let immlo = field 29 2 word in
    let immhi = field 5 19 word in
    let offset = sign_fill 21 (bit_or (immhi * 2 ^ 2) immlo) in
    record inst {
      format = Format.pc_rel;
      rd = field 0 5 word;
      is_64bit = true;
      op = if op == 0 then Op.adr else Op.adrp;
      branch_offset = if op == 0 then offset else shl64 offset 12;
    }

unfoldable pub decode_nop : ℕ → Instruction → Instruction
decode_nop word inst = record inst { op = Op.nop }

unfoldable pub decode_exception : ℕ → Instruction → Instruction
decode_exception word inst =
    let hi = field 21 11 word in
    record inst {
      format = Format.exception;
      imm = field 5 16 word;
      op = if hi == 0b11010100001 then Op.brk else Op.svc;
    }

unfoldable pub decode_system_reg : ℕ → Instruction → Instruction
decode_system_reg word inst = record inst {
  format = Format.system_reg;
  op = Op.mrs;
  is_64bit = true;
  rd = field 0 5 word;
  sys_reg = field 5 15 word;
}
