-- ===== src/Emu/Simd.antt =====
-- emu/simd.go: the vector unit. Go's float arithmetic is a parameter, on the bit patterns.
pub mod Doubles
use m1sim.Base.{ℕ, zero, suc, ◌+◌, ◌-◌, ◌*◌, ◌%◌, ◌^◌, leb, if◌then◌else◌, u8, u16, u32, add64}
use m1sim.Insts.{Arrangement}
use m1sim.Emu.RegFile.{RegFile, read_reg}
use m1sim.Emu.Memory.{Memory, read64, write64}
use m1sim.Emu.SimdRegFile.{
  SimdRegFile, read_q, write_q, read_lane8, read_lane16, read_lane32, read_lane64, write_lane8,
  write_lane16, write_lane32, write_lane64,
}

-- a op b on float32 and float64 values given by their bits.
pub record FloatOps : Type 0 where
  pub add_float32 : ℕ → ℕ → ℕ
  pub sub_float32 : ℕ → ℕ → ℕ
  pub mul_float32 : ℕ → ℕ → ℕ
  pub add_float64 : ℕ → ℕ → ℕ
  pub sub_float64 : ℕ → ℕ → ℕ
  pub mul_float64 : ℕ → ℕ → ℕ

-- The two ways to see a lane, and the loop that all the lane-wise methods share:
-- `for i := 0; i < count; i++ { write(vd, i, op(read(vn, i), read(vm, i))) }`.
pub record Lanes : Type 0 where
  pub read : ℕ → ℕ → SimdRegFile → ℕ
  pub write : ℕ → ℕ → ℕ → SimdRegFile → SimdRegFile

unfoldable pub lane_loop : Lanes → (ℕ → ℕ → ℕ) → ℕ → ℕ → ℕ → ℕ → ℕ → SimdRegFile → SimdRegFile
lane_loop l op vd vn vm zero i v = v
lane_loop l op vd vn vm (suc left) i v =
    lane_loop l op vd vn vm left (i + 1) (l.write vd i (op (l.read vn i v) (l.read vm i v)) v)

abbrev pub bytes : Lanes
bytes = record { read = read_lane8; write = write_lane8 }

abbrev pub halfwords : Lanes
halfwords = record { read = read_lane16; write = write_lane16 }

abbrev pub words : Lanes
words = record { read = read_lane32; write = write_lane32 }

abbrev pub doubles : Lanes
doubles = record { read = read_lane64; write = write_lane64 }

-- The loop, and `if count <= half { WriteLane64(vd, 1, 0) }` after it.
unfoldable pub narrow_loop : Lanes → (ℕ → ℕ → ℕ) → ℕ → ℕ → ℕ → ℕ → ℕ → SimdRegFile → SimdRegFile
unfolding lane_loop
narrow_loop l op half vd vn vm count v =
    let done = lane_loop l op vd vn vm count 0 v in
    if leb count half then write_lane64 vd 1 0 done else done

unfoldable pub vadd_bytes : ℕ → ℕ → ℕ → ℕ → SimdRegFile → SimdRegFile
unfolding narrow_loop
vadd_bytes = narrow_loop bytes (λ a b. (a + b) % 2 ^ 8) 8

unfoldable pub vadd_halfwords : ℕ → ℕ → ℕ → ℕ → SimdRegFile → SimdRegFile
unfolding narrow_loop
vadd_halfwords = narrow_loop halfwords (λ a b. (a + b) % 2 ^ 16) 4

unfoldable pub vadd_words : ℕ → ℕ → ℕ → ℕ → SimdRegFile → SimdRegFile
unfolding narrow_loop
vadd_words = narrow_loop words (λ a b. (a + b) % 2 ^ 32) 2

unfoldable pub vadd_doubles : ℕ → ℕ → ℕ → ℕ → SimdRegFile → SimdRegFile
unfolding lane_loop
vadd_doubles vd vn vm count = lane_loop doubles (λ a b. (a + b) % 2 ^ 64) vd vn vm count 0

unfoldable pub vadd : ℕ → ℕ → ℕ → Arrangement → SimdRegFile → SimdRegFile
vadd vd vn vm arrangement v = elim arrangement [
  | Arrangement.arr_8b ↦ vadd_bytes vd vn vm 8 v
  | Arrangement.arr_16b ↦ vadd_bytes vd vn vm 16 v
  | Arrangement.arr_4h ↦ vadd_halfwords vd vn vm 4 v
  | Arrangement.arr_8h ↦ vadd_halfwords vd vn vm 8 v
  | Arrangement.arr_2s ↦ vadd_words vd vn vm 2 v
  | Arrangement.arr_4s ↦ vadd_words vd vn vm 4 v
  | Arrangement.arr_2d ↦ vadd_doubles vd vn vm 2 v
]

unfoldable pub vsub_bytes : ℕ → ℕ → ℕ → ℕ → SimdRegFile → SimdRegFile
unfolding narrow_loop
vsub_bytes = narrow_loop bytes (λ a b. (a + 2 ^ 8 - b) % 2 ^ 8) 8

unfoldable pub vsub_halfwords : ℕ → ℕ → ℕ → ℕ → SimdRegFile → SimdRegFile
unfolding narrow_loop
vsub_halfwords = narrow_loop halfwords (λ a b. (a + 2 ^ 16 - b) % 2 ^ 16) 4

unfoldable pub vsub_words : ℕ → ℕ → ℕ → ℕ → SimdRegFile → SimdRegFile
unfolding narrow_loop
vsub_words = narrow_loop words (λ a b. (a + 2 ^ 32 - b) % 2 ^ 32) 2

unfoldable pub vsub_doubles : ℕ → ℕ → ℕ → ℕ → SimdRegFile → SimdRegFile
unfolding lane_loop
vsub_doubles vd vn vm count = lane_loop doubles (λ a b. (a + 2 ^ 64 - b) % 2 ^ 64) vd vn vm count 0

unfoldable pub vsub : ℕ → ℕ → ℕ → Arrangement → SimdRegFile → SimdRegFile
vsub vd vn vm arrangement v = elim arrangement [
  | Arrangement.arr_8b ↦ vsub_bytes vd vn vm 8 v
  | Arrangement.arr_16b ↦ vsub_bytes vd vn vm 16 v
  | Arrangement.arr_4h ↦ vsub_halfwords vd vn vm 4 v
  | Arrangement.arr_8h ↦ vsub_halfwords vd vn vm 8 v
  | Arrangement.arr_2s ↦ vsub_words vd vn vm 2 v
  | Arrangement.arr_4s ↦ vsub_words vd vn vm 4 v
  | Arrangement.arr_2d ↦ vsub_doubles vd vn vm 2 v
]

unfoldable pub vmul_bytes : ℕ → ℕ → ℕ → ℕ → SimdRegFile → SimdRegFile
unfolding narrow_loop
vmul_bytes = narrow_loop bytes (λ a b. (a * b) % 2 ^ 8) 8

unfoldable pub vmul_halfwords : ℕ → ℕ → ℕ → ℕ → SimdRegFile → SimdRegFile
unfolding narrow_loop
vmul_halfwords = narrow_loop halfwords (λ a b. (a * b) % 2 ^ 16) 4

unfoldable pub vmul_words : ℕ → ℕ → ℕ → ℕ → SimdRegFile → SimdRegFile
unfolding narrow_loop
vmul_words = narrow_loop words (λ a b. (a * b) % 2 ^ 32) 2

unfoldable pub vmul : ℕ → ℕ → ℕ → Arrangement → SimdRegFile → SimdRegFile
vmul vd vn vm arrangement v = elim arrangement [
  | Arrangement.arr_8b ↦ vmul_bytes vd vn vm 8 v
  | Arrangement.arr_16b ↦ vmul_bytes vd vn vm 16 v
  | Arrangement.arr_4h ↦ vmul_halfwords vd vn vm 4 v
  | Arrangement.arr_8h ↦ vmul_halfwords vd vn vm 8 v
  | Arrangement.arr_2s ↦ vmul_words vd vn vm 2 v
  | Arrangement.arr_4s ↦ vmul_words vd vn vm 4 v
  | Arrangement.arr_2d ↦ v
]

unfoldable pub vfadd : FloatOps → ℕ → ℕ → ℕ → Arrangement → SimdRegFile → SimdRegFile
unfolding lane_loop narrow_loop
vfadd f vd vn vm arrangement v = elim arrangement [
  | Arrangement.arr_2s ↦ narrow_loop words f.add_float32 2 vd vn vm 2 v
  | Arrangement.arr_4s ↦ narrow_loop words f.add_float32 2 vd vn vm 4 v
  | Arrangement.arr_2d ↦ lane_loop doubles f.add_float64 vd vn vm 2 0 v
  | _ ↦ v
]

unfoldable pub vfsub : FloatOps → ℕ → ℕ → ℕ → Arrangement → SimdRegFile → SimdRegFile
unfolding lane_loop narrow_loop
vfsub f vd vn vm arrangement v = elim arrangement [
  | Arrangement.arr_2s ↦ narrow_loop words f.sub_float32 2 vd vn vm 2 v
  | Arrangement.arr_4s ↦ narrow_loop words f.sub_float32 2 vd vn vm 4 v
  | Arrangement.arr_2d ↦ lane_loop doubles f.sub_float64 vd vn vm 2 0 v
  | _ ↦ v
]

unfoldable pub vfmul : FloatOps → ℕ → ℕ → ℕ → Arrangement → SimdRegFile → SimdRegFile
unfolding lane_loop narrow_loop
vfmul f vd vn vm arrangement v = elim arrangement [
  | Arrangement.arr_2s ↦ narrow_loop words f.mul_float32 2 vd vn vm 2 v
  | Arrangement.arr_4s ↦ narrow_loop words f.mul_float32 2 vd vn vm 4 v
  | Arrangement.arr_2d ↦ lane_loop doubles f.mul_float64 vd vn vm 2 0 v
  | _ ↦ v
]

unfoldable pub ldr128 : ℕ → ℕ → Memory → SimdRegFile → SimdRegFile
unfolding write_q
ldr128 vd addr m v = write_q vd (read64 addr m) (read64 (add64 addr 8) m) v

unfoldable pub str128 : ℕ → ℕ → SimdRegFile → Memory → Memory
unfolding read_q
str128 vd addr v m =
    let (low, high) = read_q vd v in write64 (add64 addr 8) high (write64 addr low m)

-- `for i := 0; i < count; i++ { write(vd, i, value) }`
unfoldable pub fill_loop : Lanes → ℕ → ℕ → ℕ → ℕ → SimdRegFile → SimdRegFile
fill_loop l value vd zero i v = v
fill_loop l value vd (suc left) i v = fill_loop l value vd left (i + 1) (l.write vd i value v)

unfoldable pub dup : ℕ → ℕ → Arrangement → RegFile → SimdRegFile → SimdRegFile
unfolding fill_loop
dup vd rn arrangement r v =
    let scalar = read_reg rn r in
    elim arrangement [
      | Arrangement.arr_8b ↦ write_lane64 vd 1 0 (fill_loop bytes (u8 scalar) vd 8 0 v)
      | Arrangement.arr_16b ↦ fill_loop bytes (u8 scalar) vd 16 0 v
      | Arrangement.arr_4h ↦ write_lane64 vd 1 0 (fill_loop halfwords (u16 scalar) vd 4 0 v)
      | Arrangement.arr_8h ↦ fill_loop halfwords (u16 scalar) vd 8 0 v
      | Arrangement.arr_2s ↦ write_lane64 vd 1 0 (fill_loop words (u32 scalar) vd 2 0 v)
      | Arrangement.arr_4s ↦ fill_loop words (u32 scalar) vd 4 0 v
      | Arrangement.arr_2d ↦ fill_loop doubles scalar vd 2 0 v
    ]
