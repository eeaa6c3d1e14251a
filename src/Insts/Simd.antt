-- ===== src/Insts/Simd.antt =====
-- insts/decoder.go: the SIMD loads and stores, three-same operations and copies.
use m1sim.Base.{ℕ, Bool, true, false, ◌*◌, ◌==◌, ◌&&◌, not, leb, if◌then◌else◌, field}
use m1sim.Insts.{Op, Format, Arrangement, Instruction}

unfoldable pub decode_simd_load_store : ℕ → Instruction → Instruction
decode_simd_load_store word inst =
    let size = field 30 2 word in
    let opc = field 22 2 word in
    let imm12 = field 10 12 word in
    let q = size == 0b00 && not (field 1 1 opc == 0) in
    let d = size == 0b01 in
    let s = size == 0b10 in
    let scale = if q then 16 else if d then 8 else if s then 4 else 16 in
    record inst {
      format = Format.simd_load_store;
      is_simd = true;
      rn = field 5 5 word;
      rd = field 0 5 word;
      is_64bit = if q then true else inst.is_64bit;
      arrangement =
          if q
          then Arrangement.arr_16b
          else if d
          then Arrangement.arr_8b
          else if s
          then Arrangement.arr_2s
          else Arrangement.arr_16b;
      imm = imm12 * scale;
      op = if field 0 1 opc == 1 then Op.ldrq else Op.strq;
    }

unfoldable pub get_simd_arrangement : Bool → ℕ → Arrangement
get_simd_arrangement true size =
    if size == 0
    then Arrangement.arr_16b
    else if size == 1
    then Arrangement.arr_8h
    else if size == 2
    then Arrangement.arr_4s
    else if size == 3
    then Arrangement.arr_2d
    else Arrangement.arr_16b
get_simd_arrangement false size =
    if size == 0
    then Arrangement.arr_8b
    else if size == 1
    then Arrangement.arr_4h
    else if size == 2
    then Arrangement.arr_2s
    else Arrangement.arr_16b

unfoldable pub decode_simd_three_same : ℕ → Instruction → Instruction
unfolding get_simd_arrangement
decode_simd_three_same word inst =
    let q = field 30 1 word in
    let u = field 29 1 word in
    let size = field 22 2 word in
    let opcode = field 11 5 word in
    let fadd = opcode == 0b11010 && (u == 0 && leb 2 size) in
    let fsub = opcode == 0b11010 && (u == 1 && leb 2 size) in
    let fmul = opcode == 0b11011 && (u == 1 && leb 2 size) in
    record inst {
      format = Format.simd_reg;
      is_simd = true;
      rd = field 0 5 word;
      rn = field 5 5 word;
      rm = field 16 5 word;
      is_64bit = q == 1;
      arrangement = get_simd_arrangement (q == 1) size;
      op =
          if opcode == 0b10000
          then (if u == 0 then Op.vadd else Op.vsub)
          else if opcode == 0b10011 && u == 0
          then Op.vmul
          else if fadd
          then Op.vfadd
          else if fsub
          then Op.vfsub
          else if fmul
          then Op.vfmul
          else Op.unknown;
      is_float = if fadd then true else if fsub then true else if fmul then true else inst.is_float;
    }

unfoldable pub decode_simd_copy : ℕ → Instruction → Instruction
decode_simd_copy word inst =
    let q = field 30 1 word == 1 in
    let imm5 = field 16 5 word in
    let byte = not (field 0 1 imm5 == 0) in
    let half = not (field 1 1 imm5 == 0) in
    let single = not (field 2 1 imm5 == 0) in
    let double = not (field 3 1 imm5 == 0) in
    record inst {
      format = Format.simd_copy;
      is_simd = true;
      rd = field 0 5 word;
      rn = field 5 5 word;
      is_64bit = q;
      arrangement =
          if byte
          then (if q then Arrangement.arr_16b else Arrangement.arr_8b)
          else if half
          then (if q then Arrangement.arr_8h else Arrangement.arr_4h)
          else if single
          then (if q then Arrangement.arr_4s else Arrangement.arr_2s)
          else if double && q
          then Arrangement.arr_2d
          else inst.arrangement;
      op =
          if byte
          then Op.dup
          else if half
          then Op.dup
          else if single
          then Op.dup
          else if double && q
          then Op.dup
          else Op.unknown;
      imm = imm5;
    }
