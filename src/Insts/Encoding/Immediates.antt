-- ===== src/Insts/Encoding/Immediates.antt =====
-- Decoding the data-processing immediates of the encoding.
use m1sim.Base.{ℕ, ◌*◌, ◌<◌, ◌^◌, ◌≡◌, ◌∙◌, arith, ◌==◌, if◌then◌else◌}
use m1sim.Insts.{Op, Format, blank}
use m1sim.Insts.Classify.{is_data_processing_imm, is_move_wide, is_bitfield}
use m1sim.Insts.Data.{decode_data_processing_imm, decode_move_wide, decode_bitfield}
use m1sim.Insts.Decoder.{decode}
use m1sim.Insts.Classes.{
  decode_data_processing_imm_class, decode_move_wide_class, decode_bitfield_class,
}
use m1sim.Insts.Encoding.{add_sub_imm_word, move_wide_word, bitfield_word}

-- The word of ADD, ADDS, SUB or SUBS with an immediate decodes to the operation, width, flag
-- setting, registers, immediate and shift by 12 that it is assembled from, where each field is in
-- its range.
pub decode-add_sub_imm_word :
    (sf op s sh imm12 rn rd : ℕ)
    → sf < 2
    → op < 2
    → s < 2
    → sh < 2
    → imm12 < 2 ^ 12
    → rn < 32
    → rd < 32
    → decode (add_sub_imm_word sf op s sh imm12 rn rd) ≡ record blank {
      op = if op == 0 then Op.add else Op.sub;
      format = Format.dp_imm;
      is_64bit = sf == 1;
      set_flags = s == 1;
      rd = rd;
      rn = rn;
      imm = imm12;
      shift = if sh == 1 then 12 else 0;
    }
decode-add_sub_imm_word sf op s sh imm12 rn rd h1 h2 h3 h4 h5 h6 h7 =
    decode_data_processing_imm_class (add_sub_imm_word sf op s sh imm12 rn rd)
      (unfold add_sub_imm_word is_data_processing_imm in ground arith)
    ∙ unfold add_sub_imm_word decode_data_processing_imm in ground arith

-- The word of MOVN, MOVZ or MOVK decodes to the operation (unknown for the opc 1 that has none),
-- width, register, 16-bit immediate and shift by a multiple of 16 that it is assembled from, where
-- each field is in its range.
pub decode-move_wide_word :
    (sf opc hw imm16 rd : ℕ)
    → sf < 2
    → opc < 4
    → hw < 4
    → imm16 < 2 ^ 16
    → rd < 32
    → decode (move_wide_word sf opc hw imm16 rd) ≡ record blank {
      op =
          if opc == 0
          then Op.movn
          else if opc == 2
          then Op.movz
          else if opc == 3
          then Op.movk
          else Op.unknown;
      format = Format.move_wide;
      is_64bit = sf == 1;
      rd = rd;
      imm = imm16;
      shift = hw * 16;
    }
decode-move_wide_word sf opc hw imm16 rd h1 h2 h3 h4 h5 =
    decode_move_wide_class (move_wide_word sf opc hw imm16 rd)
      (unfold move_wide_word is_move_wide in ground arith)
    ∙ unfold move_wide_word decode_move_wide in ground arith

-- The word of SBFM, BFM or UBFM decodes to the operation, width, registers, immr and imms that it
-- is assembled from, where each field is in its range.
pub decode-bitfield_word :
    (sf opc immr imms rn rd : ℕ)
    → sf < 2
    → opc < 3
    → immr < 64
    → imms < 64
    → rn < 32
    → rd < 32
    → decode (bitfield_word sf opc immr imms rn rd) ≡ record blank {
      op = if opc == 0 then Op.sbfm else if opc == 1 then Op.bfm else Op.ubfm;
      format = Format.bitfield;
      is_64bit = sf == 1;
      rd = rd;
      rn = rn;
      imm = immr;
      imm2 = imms;
    }
decode-bitfield_word sf opc immr imms rn rd h1 h2 h3 h4 h5 h6 =
    decode_bitfield_class (bitfield_word sf opc immr imms rn rd)
      (unfold bitfield_word is_bitfield in ground arith)
    ∙ unfold bitfield_word decode_bitfield in ground arith
