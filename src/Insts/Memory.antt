-- ===== src/Insts/Memory.antt =====
-- insts/decoder.go: loads and stores.
use m1sim.Base.{ℕ, Bool, true, false, ◌*◌, ◌==◌, ◌||◌, if◌then◌else◌, field}
use m1sim.Insts.{Op, Format, IndexMode, Instruction}
use m1sim.Insts.Branches.{sign_fill, scaled, nonneg}

-- The 64-bit and the 32-bit cases of the `switch size`, which the three decoders share; opc 11 has
-- no case at 32 bits, and the fields stay.
abbrev wide_op : ℕ → ℕ → Op → Op
wide_op size opc old =
    if size == 0b11
    then (if field 0 1 opc == 1 then Op.ldr else Op.str)
    else if opc == 0b00
    then Op.str
    else if opc == 0b01
    then Op.ldr
    else if opc == 0b10
    then Op.ldrsw
    else old

abbrev wide_is_64bit : ℕ → ℕ → Bool → Bool
wide_is_64bit size opc old =
    if size == 0b11
    then true
    else if opc == 0b00
    then false
    else if opc == 0b01
    then false
    else if opc == 0b10
    then true
    else old

-- The whole `switch size` of the register-offset and the indexed form, which is the same text.
abbrev sized_op : ℕ → ℕ → Op → Op
sized_op size opc old =
    if size == 0b11 || size == 0b10
    then wide_op size opc old
    else if size == 0b01
    then (if opc == 0b00 then Op.strh else if opc == 0b01 then Op.ldrh else Op.ldrsh)
    else if opc == 0b00
    then Op.strb
    else if opc == 0b01
    then Op.ldrb
    else Op.ldrsb

abbrev sized_is_64bit : ℕ → ℕ → Bool → Bool
sized_is_64bit size opc old =
    if size == 0b11 || size == 0b10 then wide_is_64bit size opc old else opc == 0b10

unfoldable pub decode_load_store_imm : ℕ → Instruction → Instruction
decode_load_store_imm word inst =
    let size = field 30 2 word in
    let opc = field 22 2 word in
    let imm12 = field 10 12 word in
    let scale = if size == 0b11 then 8 else 4 in
    let wide = size == 0b11 || size == 0b10 in
    record inst {
      format = Format.load_store;
      rn = field 5 5 word;
      rd = field 0 5 word;
      imm = imm12 * scale;
      is_64bit = if wide then wide_is_64bit size opc inst.is_64bit else size == 0b11;
      op = if wide then wide_op size opc inst.op else if field 0 1 opc == 1 then Op.ldr else Op.str;
    }

unfoldable pub decode_load_store_literal : ℕ → Instruction → Instruction
unfolding sign_fill
decode_load_store_literal word inst =
    let opc = field 30 2 word in
    let v = field 26 1 word in
    let offset = scaled 4 (sign_fill 19 (field 5 19 word)) in
    record inst {
      format = Format.load_store_lit;
      op = Op.ldr_lit;
      rd = field 0 5 word;
      is_simd = v == 1;
      is_64bit = opc == 0b01;
      branch_offset = offset;
      imm = if nonneg offset then offset else inst.imm;
    }

unfoldable pub decode_load_store_pair : ℕ → Instruction → Instruction
unfolding sign_fill
decode_load_store_pair word inst =
    let opc = field 30 2 word in
    let v = field 26 1 word in
    let mode = field 23 3 word in
    let l = field 22 1 word in
    let wide = opc == 0b10 in
    record inst {
      format = Format.load_store_pair;
      rn = field 5 5 word;
      rd = field 0 5 word;
      rt2 = field 10 5 word;
      is_simd = v == 1;
      is_64bit = wide;
      index_mode =
          if mode == 0b001
          then IndexMode.index_post
          else if mode == 0b010
          then IndexMode.index_signed
          else if mode == 0b011
          then IndexMode.index_pre
          else IndexMode.index_none;
      signed_imm = scaled (if wide then 8 else 4) (sign_fill 7 (field 15 7 word));
      op = if l == 1 then Op.ldp else Op.stp;
    }

unfoldable pub decode_load_store_reg_offset : ℕ → Instruction → Instruction
decode_load_store_reg_offset word inst =
    let size = field 30 2 word in
    let v = field 26 1 word in
    let opc = field 22 2 word in
    let s = field 12 1 word in
    record inst {
      format = Format.load_store;
      index_mode = IndexMode.index_reg_base;
      rn = field 5 5 word;
      rd = field 0 5 word;
      rm = field 16 5 word;
      is_simd = v == 1;
      shift_type = field 13 3 word;
      shift_amount = if s == 1 then size else 0;
      is_64bit = sized_is_64bit size opc inst.is_64bit;
      op = sized_op size opc inst.op;
    }

unfoldable pub decode_load_store_reg_indexed : ℕ → Instruction → Instruction
unfolding sign_fill
decode_load_store_reg_indexed word inst =
    let size = field 30 2 word in
    let v = field 26 1 word in
    let opc = field 22 2 word in
    let mode = field 10 2 word in
    record inst {
      format = Format.load_store;
      rn = field 5 5 word;
      rd = field 0 5 word;
      is_simd = v == 1;
      index_mode =
          if mode == 0b01
          then IndexMode.index_post
          else if mode == 0b11
          then IndexMode.index_pre
          else IndexMode.index_none;
      signed_imm = sign_fill 9 (field 12 9 word);
      is_64bit = sized_is_64bit size opc inst.is_64bit;
      op = sized_op size opc inst.op;
    }
