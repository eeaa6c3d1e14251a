-- ===== src/Insts/Encoding/LoadStores.antt =====
-- Decoding the loads and stores with an unsigned offset.
use m1sim.Base.{ℕ, ◌*◌, ◌≤◌, ◌<◌, ◌^◌, ◌≡◌, ◌∙◌, false, true, arith, ◌==◌, if◌then◌else◌, field}
use m1sim.Insts.{Op, Format, blank}
use m1sim.Insts.Classify.{
  is_simd_load_store, is_simd_three_same, is_simd_copy, is_load_store_pair, is_load_store_literal,
  is_load_store_reg_offset, is_load_store_reg_indexed, is_load_store_imm,
}
use m1sim.Insts.Memory.{decode_load_store_imm, decode_load_store_reg_indexed}
use m1sim.Insts.Decoder.{decode}
use m1sim.Insts.Encoding.{load_store_imm_word}

-- Bits [29:24] = 111001: no earlier test passes.
record Unsigned (w : ℕ) : Type 0 where
  simd_load_store : is_simd_load_store w ≡ false
  simd_three_same : is_simd_three_same w ≡ false
  simd_copy : is_simd_copy w ≡ false
  load_store_pair : is_load_store_pair w ≡ false
  load_store_literal : is_load_store_literal w ≡ false
  load_store_reg_offset : is_load_store_reg_offset w ≡ false
  load_store_reg_indexed : is_load_store_reg_indexed w ≡ false
  load_store_imm : is_load_store_imm w ≡ true

unsigned : (w : ℕ) → field 24 6 w ≡ 0b111001 → Unsigned w
unfolding is_simd_load_store is_simd_three_same is_simd_copy is_load_store_pair
    is_load_store_literal is_load_store_reg_offset is_load_store_reg_indexed is_load_store_imm
unsigned w h = record {
  simd_load_store = ground arith;
  simd_three_same = ground arith;
  simd_copy = ground arith;
  load_store_pair = ground arith;
  load_store_literal = ground arith;
  load_store_reg_offset = ground arith;
  load_store_reg_indexed = ground arith;
  load_store_imm = ground arith;
}

-- Bits [29:24] = 111000 and bit 21 = 0: no earlier test passes.
record Indexed (w : ℕ) : Type 0 where
  simd_load_store : is_simd_load_store w ≡ false
  simd_three_same : is_simd_three_same w ≡ false
  simd_copy : is_simd_copy w ≡ false
  load_store_pair : is_load_store_pair w ≡ false
  load_store_literal : is_load_store_literal w ≡ false
  load_store_reg_offset : is_load_store_reg_offset w ≡ false
  load_store_reg_indexed : is_load_store_reg_indexed w ≡ true

indexed : (w : ℕ) → field 24 6 w ≡ 0b111000 → field 21 1 w ≡ 0 → Indexed w
unfolding is_simd_load_store is_simd_three_same is_simd_copy is_load_store_pair
    is_load_store_literal is_load_store_reg_offset is_load_store_reg_indexed
indexed w h k = record {
  simd_load_store = ground arith;
  simd_three_same = ground arith;
  simd_copy = ground arith;
  load_store_pair = ground arith;
  load_store_literal = ground arith;
  load_store_reg_offset = ground arith;
  load_store_reg_indexed = ground arith;
}

pub decode_load_store_reg_indexed_class :
    (w : ℕ)
    → field 24 6 w ≡ 0b111000
    → field 21 1 w ≡ 0
    → decode w ≡ decode_load_store_reg_indexed w blank
unfolding decode
decode_load_store_reg_indexed_class w h k =
    let x = indexed w h k in
    ground (
      arith, x.simd_load_store, x.simd_three_same, x.simd_copy, x.load_store_pair,
      x.load_store_literal, x.load_store_reg_offset, x.load_store_reg_indexed,
    )

decode_load_store_imm_class :
    (w : ℕ) → field 24 6 w ≡ 0b111001 → decode w ≡ decode_load_store_imm w blank
unfolding decode
decode_load_store_imm_class w h =
    let u = unsigned w h in
    ground (
      arith, u.simd_load_store, u.simd_three_same, u.simd_copy, u.load_store_pair,
      u.load_store_literal, u.load_store_reg_offset, u.load_store_reg_indexed, u.load_store_imm,
    )

-- The word of an LDR or STR of 4 or 8 bytes with an unsigned offset decodes to the operation, width
-- and registers that it is assembled from, with the offset in bytes, where each field is in its
-- range.
pub decode-load_store_imm_word :
    (size opc imm12 rn rt : ℕ)
    → 2 ≤ size
    → size < 4
    → opc < 2
    → imm12 < 2 ^ 12
    → rn < 32
    → rt < 32
    → decode (load_store_imm_word size opc imm12 rn rt) ≡ record blank {
      op = if opc == 0 then Op.str else Op.ldr;
      format = Format.load_store;
      is_64bit = size == 3;
      rd = rt;
      rn = rn;
      imm = imm12 * 2 ^ size;
    }
decode-load_store_imm_word size opc imm12 rn rt l h1 h2 h3 h4 h5 =
    decode_load_store_imm_class (load_store_imm_word size opc imm12 rn rt)
      (unfold load_store_imm_word in omega arith)
    ∙ unfold load_store_imm_word decode_load_store_imm in ground (arith, wide size l h1)
  where
    wide : (size : ℕ) → 2 ≤ size → size < 4 → 2 ^ size ≡ (if size == 3 then 8 else 4)
    wide size l h = ground arith

-- The word of a load or store of 1 or 2 bytes with an unsigned offset decodes to a 32-bit LDR or
-- STR whose offset is scaled by 4, where each field is in its range.
pub decode-load_store_imm_word_narrow :
    (size opc imm12 rn rt : ℕ)
    → size < 2
    → opc < 2
    → imm12 < 2 ^ 12
    → rn < 32
    → rt < 32
    → decode (load_store_imm_word size opc imm12 rn rt) ≡ record blank {
      op = if opc == 0 then Op.str else Op.ldr;
      format = Format.load_store;
      is_64bit = false;
      rd = rt;
      rn = rn;
      imm = imm12 * 4;
    }
decode-load_store_imm_word_narrow size opc imm12 rn rt h1 h2 h3 h4 h5 =
    decode_load_store_imm_class (load_store_imm_word size opc imm12 rn rt)
      (unfold load_store_imm_word in omega arith)
    ∙ unfold load_store_imm_word decode_load_store_imm in ground arith
