-- ===== src/Insts/Encoding/Jumps.antt =====
-- Decoding the words of the PC-relative branches and of ADR.
use m1sim.Base.{
  ℕ, ◌-◌, ◌≤◌, ◌⊎◌, true, ◌+◌, ◌*◌, ◌/◌, ◌%◌, ◌<◌, ◌^◌, ◌≡◌, ◌∙◌, arith, ◌==◌, ltb, if◌then◌else◌,
}
use m1sim.Base.Bits.{bit_or_high}
use m1sim.Insts.{Op, Format, blank}
use m1sim.Insts.Classify.{
  is_branch_imm, is_branch_cond, is_compare_branch, is_test_branch, is_pc_rel_addressing,
}
use m1sim.Insts.Branches.{
  decode_branch_imm, decode_branch_cond, decode_compare_branch, decode_test_branch,
  decode_pc_rel_addressing,
}
use m1sim.Insts.Decoder.{decode}
use m1sim.Insts.Classes.{decode_pc_rel_addressing_class}
use m1sim.Insts.Classes.Branches.{
  decode_branch_imm_class, decode_branch_cond_class, decode_compare_branch_class,
  decode_test_branch_class,
}
use m1sim.Insts.Encoding.{
  branch_word, branch_cond_word, compare_branch_word, test_branch_word, adr_word,
}
use m1sim.Insts.Encoding.Signs.{Reaches, sign_fill_26, sign_fill_19, sign_fill_14, sign_fill_21}

-- The word of B or BL for a byte offset, a multiple of 4 that 26 signed bits of words reach,
-- decodes to that instruction with that offset, sign extended to 64 bits, and with the offset as
-- its immediate where it is not negative.
pub decode-branch_word :
    (op offset : ℕ)
    → op < 2
    → Reaches 26 offset
    → decode (branch_word op offset) ≡ record blank {
      op = if op == 0 then Op.b else Op.bl;
      format = Format.branch;
      branch_offset = offset;
      imm = if ltb offset (2 ^ 63) then offset else 0;
    }
decode-branch_word op offset h r =
    decode_branch_imm_class (branch_word op offset)
      (unfold branch_word is_branch_imm in ground arith)
    ∙ unfold branch_word decode_branch_imm in ground (arith, sign_fill_26 (offset / 4 % 2 ^ 26))

-- The word of B.cond for a condition below 16 and a byte offset, a multiple of 4 that 19 signed
-- bits of words reach, decodes to that condition and offset.
pub decode-branch_cond_word :
    (cond offset : ℕ)
    → cond < 16
    → Reaches 19 offset
    → decode (branch_cond_word cond offset) ≡ record blank {
      op = Op.b_cond;
      format = Format.branch_cond;
      branch_offset = offset;
      imm = if ltb offset (2 ^ 63) then offset else 0;
      cond = cond;
    }
decode-branch_cond_word cond offset h r =
    decode_branch_cond_class (branch_cond_word cond offset)
      (unfold branch_cond_word is_branch_cond in ground arith)
    ∙ unfold branch_cond_word decode_branch_cond in
      ground (arith, sign_fill_19 (offset / 4 % 2 ^ 19))

-- The word of CBZ or CBNZ on a W or X register for a byte offset, a multiple of 4 that 19 signed
-- bits of words reach, decodes to that operation, width, register and offset.
pub decode-compare_branch_word :
    (sf op rt offset : ℕ)
    → sf < 2
    → op < 2
    → rt < 32
    → Reaches 19 offset
    → decode (compare_branch_word sf op rt offset) ≡ record blank {
      op = if op == 0 then Op.cbz else Op.cbnz;
      format = Format.compare_branch;
      is_64bit = sf == 1;
      rd = rt;
      branch_offset = offset;
    }
decode-compare_branch_word sf op rt offset h1 h2 h3 r =
    decode_compare_branch_class (compare_branch_word sf op rt offset)
      (unfold compare_branch_word is_compare_branch in ground arith)
    ∙ unfold compare_branch_word decode_compare_branch in
      ground (arith, sign_fill_19 (offset / 4 % 2 ^ 19))

-- The word of TBZ or TBNZ for a bit below 64, a register and a byte offset, a multiple of 4 that 14
-- signed bits of words reach, decodes to that operation, bit, register and offset, as a 64-bit
-- instruction exactly from bit 32 on.
pub decode-test_branch_word :
    (op bit rt offset : ℕ)
    → op < 2
    → bit < 64
    → rt < 32
    → Reaches 14 offset
    → decode (test_branch_word op bit rt offset) ≡ record blank {
      op = if op == 0 then Op.tbz else Op.tbnz;
      format = Format.test_branch;
      is_64bit = bit / 32 == 1;
      rd = rt;
      imm = bit;
      branch_offset = offset;
    }
decode-test_branch_word op bit rt offset h1 h2 h3 r =
    decode_test_branch_class (test_branch_word op bit rt offset)
      (unfold test_branch_word is_test_branch in ground arith)
    ∙ unfold test_branch_word decode_test_branch in
      ground (
        arith,
        sign_fill_14 (offset / 4 % 2 ^ 14),
        bit_or_high 5 (bit / 32) (bit % 32) (omega arith),
      )

-- The word of ADR for a register and a byte offset that 21 signed bits reach decodes to ADR with
-- that register and offset.
pub decode-adr_word :
    (rd offset : ℕ)
    → rd < 32
    → offset < 2 ^ 64
    → (offset < 2 ^ 20) ⊎ (2 ^ 64 - 2 ^ 20 ≤ offset)
    → decode (adr_word rd offset) ≡ record blank {
      op = Op.adr;
      format = Format.pc_rel;
      is_64bit = true;
      rd = rd;
      branch_offset = offset;
    }
decode-adr_word rd offset h1 h2 r =
    decode_pc_rel_addressing_class (adr_word rd offset)
      (unfold adr_word is_pc_rel_addressing in ground arith)
    ∙ unfold adr_word decode_pc_rel_addressing in
      ground (
        arith,
        bit_or_high 2 (offset / 4 % 2 ^ 19) (offset % 4) (omega arith),
        sign_fill_21 (offset / 4 % 2 ^ 19 * 2 ^ 2 + offset % 4),
      )
