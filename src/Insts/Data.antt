-- ===== src/Insts/Data.antt =====
-- insts/decoder.go: data processing, moves, conditional select and compare, bit fields.
use m1sim.Base.{ℕ, ◌*◌, ◌==◌, ◌&&◌, if◌then◌else◌, field}
use m1sim.Insts.{Op, Format, Instruction}
use m1sim.Insts.Bitmask.{decode_bitmask_immediate}

unfoldable pub decode_data_processing_imm : ℕ → Instruction → Instruction
decode_data_processing_imm word inst =
    let sf = field 31 1 word in
    let op = field 30 1 word in
    let s = field 29 1 word in
    let sh = field 22 1 word in
    record inst {
      format = Format.dp_imm;
      is_64bit = sf == 1;
      set_flags = s == 1;
      rd = field 0 5 word;
      rn = field 5 5 word;
      imm = field 10 12 word;
      shift = if sh == 1 then 12 else inst.shift;
      op = if op == 0 then Op.add else Op.sub;
    }

unfoldable pub decode_data_processing_reg : ℕ → Instruction → Instruction
decode_data_processing_reg word inst =
    let sf = field 31 1 word in
    let op = field 24 5 word in
    let op_bit = field 30 1 word in
    let s_bit = field 29 1 word in
    let opc = field 29 2 word in
    let n_bit = field 21 1 word in
    let add_sub = op == 0b01011 in
    record inst {
      format = Format.dp_reg;
      is_64bit = sf == 1;
      rd = field 0 5 word;
      rn = field 5 5 word;
      rm = field 16 5 word;
      shift_type = field 22 2 word;
      shift_amount = field 10 6 word;
      set_flags = if add_sub then s_bit == 1 else opc == 0b11;
      op =
          if add_sub
          then (if op_bit == 0 then Op.add else Op.sub)
          else if opc == 0b00
          then (if n_bit == 0 then Op.and else Op.bic)
          else if opc == 0b01
          then (if n_bit == 0 then Op.orr else Op.orn)
          else if opc == 0b10
          then (if n_bit == 0 then Op.eor else Op.eon)
          else if n_bit == 0
          then Op.and
          else Op.bic;
    }

unfoldable pub decode_move_wide : ℕ → Instruction → Instruction
decode_move_wide word inst =
    let sf = field 31 1 word in
    let opc = field 29 2 word in
    let hw = field 21 2 word in
    record inst {
      format = Format.move_wide;
      rd = field 0 5 word;
      is_64bit = sf == 1;
      imm = field 5 16 word;
      shift = hw * 16;
      op =
          if opc == 0b00
          then Op.movn
          else if opc == 0b10
          then Op.movz
          else if opc == 0b11
          then Op.movk
          else Op.unknown;
    }

-- rm = 0xFF marks the immediate form, whose operand is in `imm2`.
unfoldable pub decode_cond_cmp : ℕ → Instruction → Instruction
decode_cond_cmp word inst =
    let sf = field 31 1 word in
    let op = field 30 1 word in
    let immediate = field 11 1 word == 1 in
    let rm = field 16 5 word in
    record inst {
      format = Format.cond_cmp;
      is_64bit = sf == 1;
      rn = field 5 5 word;
      cond = field 12 4 word;
      imm = field 0 4 word;
      imm2 = if immediate then rm else inst.imm2;
      rm = if immediate then 0xFF else rm;
      op = if op == 0 then Op.ccmn else Op.ccmp;
    }

unfoldable pub decode_conditional_select : ℕ → Instruction → Instruction
decode_conditional_select word inst =
    let sf = field 31 1 word in
    let op = field 30 1 word in
    let op2 = field 10 1 word in
    record inst {
      format = Format.cond_select;
      is_64bit = sf == 1;
      rd = field 0 5 word;
      rn = field 5 5 word;
      rm = field 16 5 word;
      cond = field 12 4 word;
      op =
          if op == 0 && op2 == 0
          then Op.csel
          else if op == 0 && op2 == 1
          then Op.csinc
          else if op == 1 && op2 == 0
          then Op.csinv
          else if op == 1 && op2 == 1
          then Op.csneg
          else Op.unknown;
    }

unfoldable pub decode_data_proc_2src : ℕ → Instruction → Instruction
decode_data_proc_2src word inst =
    let sf = field 31 1 word in
    let opcode = field 10 6 word in
    record inst {
      format = Format.data_proc_2src;
      is_64bit = sf == 1;
      rd = field 0 5 word;
      rn = field 5 5 word;
      rm = field 16 5 word;
      op =
          if opcode == 0b000010
          then Op.udiv
          else if opcode == 0b000011
          then Op.sdiv
          else if opcode == 0b001000
          then Op.lslv
          else if opcode == 0b001001
          then Op.lsrv
          else if opcode == 0b001010
          then Op.asrv
          else if opcode == 0b001011
          then Op.rorv
          else Op.unknown;
    }

-- `rt2` holds Ra.
unfoldable pub decode_data_proc_3src : ℕ → Instruction → Instruction
decode_data_proc_3src word inst =
    let sf = field 31 1 word in
    let o0 = field 15 1 word in
    record inst {
      format = Format.data_proc_3src;
      is_64bit = sf == 1;
      rd = field 0 5 word;
      rn = field 5 5 word;
      rm = field 16 5 word;
      rt2 = field 10 5 word;
      op = if o0 == 0 then Op.madd else Op.msub;
    }

unfoldable pub decode_logical_imm : ℕ → Instruction → Instruction
decode_logical_imm word inst =
    let sf = field 31 1 word in
    let opc = field 29 2 word in
    let n = field 22 1 word in
    let immr = field 16 6 word in
    let imms = field 10 6 word in
    record inst {
      format = Format.logical_imm;
      is_64bit = sf == 1;
      rd = field 0 5 word;
      rn = field 5 5 word;
      imm = decode_bitmask_immediate n immr imms (sf == 1);
      set_flags = opc == 0b11;
      op =
          if opc == 0b00
          then Op.and
          else if opc == 0b01
          then Op.orr
          else if opc == 0b10
          then Op.eor
          else Op.and;
    }

unfoldable pub decode_extract : ℕ → Instruction → Instruction
decode_extract word inst =
    let sf = field 31 1 word in
    record inst {
      format = Format.extract;
      op = Op.extr;
      is_64bit = sf == 1;
      rd = field 0 5 word;
      rn = field 5 5 word;
      rm = field 16 5 word;
      imm = field 10 6 word;
    }

unfoldable pub decode_bitfield : ℕ → Instruction → Instruction
decode_bitfield word inst =
    let sf = field 31 1 word in
    let opc = field 29 2 word in
    record inst {
      format = Format.bitfield;
      is_64bit = sf == 1;
      rd = field 0 5 word;
      rn = field 5 5 word;
      imm = field 16 6 word;
      imm2 = field 10 6 word;
      op =
          if opc == 0b00
          then Op.sbfm
          else if opc == 0b01
          then Op.bfm
          else if opc == 0b10
          then Op.ubfm
          else Op.unknown;
    }
