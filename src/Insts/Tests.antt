-- ===== src/Insts/Tests.antt =====
-- Words of the encoding and what insts/decoder.go makes of them.
use m1sim.Base.{true, inr, ◌-◌, ◌^◌, ◌≡◌, refl, arith}
use m1sim.Insts.{Op, Format, blank}
use m1sim.Insts.Decoder.{decode}
use m1sim.Insts.Bounds.{InRange, decode-InRange}
use m1sim.Insts.Encoding.{add_sub_imm_word, branch_word}
use m1sim.Insts.Encoding.{load_store_imm_word}
use m1sim.Insts.Encoding.LoadStores.{decode-load_store_imm_word, decode-load_store_imm_word_narrow}
use m1sim.Insts.Encoding.Immediates.{decode-add_sub_imm_word}
use m1sim.Insts.Encoding.Jumps.{decode-branch_word}

-- A conditional compare with an immediate: Rm is the sentinel 0xFF.
decode-InRange_example : InRange (decode 0xFA451844)
decode-InRange_example = decode-InRange 0xFA451844

-- SUBS X1, X2, #3
decode-add_sub_imm_word_example : decode (add_sub_imm_word 1 1 1 0 3 2 1) ≡ record blank {
  op = Op.sub;
  format = Format.dp_imm;
  is_64bit = true;
  set_flags = true;
  rd = 1;
  rn = 2;
  imm = 3;
}
decode-add_sub_imm_word_example =
    decode-add_sub_imm_word 1 1 1 0 3 2 1 (omega arith) (omega arith) (omega arith) (omega arith)
      (omega arith) (omega arith) (omega arith)

-- BL .-8
decode-branch_word_example :
    decode (branch_word 1 (2 ^ 64 - 8))
    ≡ record blank { op = Op.bl; format = Format.branch; branch_offset = 2 ^ 64 - 8 }
decode-branch_word_example =
    decode-branch_word 1 (2 ^ 64 - 8) (omega arith) (refl, omega arith, inr (omega arith))

-- STR X3, [X1, #40]
decode-load_store_imm_word_example : decode (load_store_imm_word 3 0 5 1 3) ≡ record blank {
  op = Op.str;
  format = Format.load_store;
  is_64bit = true;
  rd = 3;
  rn = 1;
  imm = 40;
}
decode-load_store_imm_word_example =
    decode-load_store_imm_word 3 0 5 1 3 (omega arith) (omega arith) (omega arith) (omega arith)
      (omega arith) (omega arith)

-- LDRB W0, [X1, #5]
decode-load_store_imm_word_narrow_example :
    decode (load_store_imm_word 0 1 5 1 0)
    ≡ record blank { op = Op.ldr; format = Format.load_store; rn = 1; imm = 20 }
decode-load_store_imm_word_narrow_example =
    decode-load_store_imm_word_narrow 0 1 5 1 0 (omega arith) (omega arith) (omega arith)
      (omega arith) (omega arith)
